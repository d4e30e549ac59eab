-- ===== src/Punchline/Lifecycle/Transition.antt =====
-- `transition` and `lock_period` of modules/punchline/src/lifecycle.cpp: what their success says of the
-- timesheet, of the caller, and of what was written.
use archivum.Base.{
  ℕ, ◌+◌, ◌==◌, ◌≡◌, ◌≢◌, subst, false≢true, sym, ap, ◌∙◌, arith, true, false, not, ◌||◌, List, [],
  Bytes, All, length,
}
use archivum.Status.{
  Result, ok, constraint, invalid_argument, require, value_or, bind-ok, require-ok,
}
use archivum.Engine.PageFormat.{bytes_eq}
use archivum.Punchline.Reader.{time_entries}
use archivum.Punchline.Queries.{entries_in_period, shifts_in_period, period_of}
use archivum.Punchline.Recorder.{Recorder}
use archivum.Punchline.Data.TimeEntry.{TimeEntry}
use archivum.Punchline.Rules.{is_empty, transition_allowed}
use archivum.Punchline.Rules.Words.{locked, open_state}
use archivum.Punchline.Lifecycle.{
  TransitionRequest, TransitionResult, predecessor, count_movable, checked, advance, complete,
  not_held, transition, move_entries, move_shifts, write_approval, note_of, resolve_approved,
}
use archivum.Punchline.Lifecycle.Moves.{
  movable, is_behind, count_movable-ok, update_all, moved_rows, move_entries-lem,
}

nonzero : (m n : ℕ) → m ≡ 0 + n → not (m == 0) ≡ true → n ≢ 0
nonzero m n e h z = absurd (false≢true (ground arith))

module _ {S : Type 0} (rec : Recorder S) where
  -- What the checks of `transition` establish of the entries that it goes on with.
  checked-ok :
      (from : Bytes) (req : TransitionRequest) (s : S) (es : List TimeEntry)
      → checked rec from req s ≡ ok es
      → (transition_allowed (rec.reader s) req.employee_id from req.to_state req.who req.now_us
          ≡ ok tt)
        × (not_held rec req s ≡ ok tt)
        × (entries_in_period (rec.reader s) req.period_id req.employee_id ≡ ok es)
        × All (λ e. is_behind from e ≡ false) es
        × (length (movable from es) ≢ 0)
  unfolding checked
  checked-ok from req s es h =
      let (u1, v1, h1) =
        bind-ok (require (not (is_empty from || bytes_eq req.to_state locked)) invalid_argument) _
          es h in
      let (period, v2, h2) = bind-ok (period_of (rec.reader s) req.period_id) _ es h1 in
      let (u3, v3, h3) = bind-ok (require (bytes_eq period.state open_state) constraint) _ es h2 in
      let (u4, allowed, h4) =
        bind-ok
          (transition_allowed (rec.reader s) req.employee_id from req.to_state req.who req.now_us) _
          es h3 in
      let (u5, held, h5) = bind-ok (not_held rec req s) _ es h4 in
      let (entries, found, h6) =
        bind-ok (entries_in_period (rec.reader s) req.period_id req.employee_id) _ es h5 in
      let (m, counted, h7) = bind-ok (count_movable from entries 0) _ es h6 in
      let (u8, some_move, h8) = bind-ok (require (not (m == 0)) constraint) _ es h7 in
      let (counts, none_behind) = count_movable-ok from entries 0 m counted in
      let same = ap (value_or []) h8 in
      (
        allowed,
        held,
        found ∙ ap ok same,
        subst (λ es. All (λ e. is_behind from e ≡ false) es) same none_behind,
        subst (λ es. length (movable from es) ≢ 0) same
            (nonzero m (length (movable from entries)) counts
              (require-ok (not (m == 0)) constraint some_move)),
      )

  complete-entries :
      (from : Bytes) (req : TransitionRequest) (n : ℕ) (s1 s' : S) (res : TransitionResult)
      → complete rec from req n s1 ≡ ok (res, s')
      → res.entries ≡ n
  unfolding complete
  complete-entries from req n s1 s' res h =
      let (shown, found, h2) =
        bind-ok (shifts_in_period (rec.reader s1) req.period_id req.employee_id) _ (res, s') h in
      let ((shifted, s2), shifts_written, h3) =
        bind-ok (move_shifts rec from req.to_state shown 0 s1) _ (res, s') h2 in
      let ((id, s3), recorded, h4) =
        bind-ok
          (write_approval rec req.period_id req.employee_id from req.to_state req.actor
            (note_of rec req) req.now_us s2)
          _ (res, s') h3 in
      let ((resolved, s4), closed, h5) = bind-ok (resolve_approved rec req s3) _ (res, s') h4 in
      sym (ap (λ (r : Result (TransitionResult × S)). (value_or (res, s') r).0.entries) h5)

  -- The writes of the entries and their count, behind the checks.
  advance-moves :
      (from : Bytes) (req : TransitionRequest) (es : List TimeEntry) (s s' : S)
      (res : TransitionResult)
      → advance rec from req es s ≡ ok (res, s')
      → (s1 : S) × (update_all rec time_entries (moved_rows rec from req.to_state es) s ≡ ok s1)
        × (complete rec from req (0 + length (movable from es)) s1 ≡ ok (res, s'))
  unfolding advance
  advance-moves from req es s s' res h =
      let ((moved, s1), writes, h1) =
        bind-ok (move_entries rec from req.to_state es 0 s) (λ r. complete rec from req r.0 r.1)
          (res, s') h in
      let (s0, written, counted) =
        bind-ok (update_all rec time_entries (moved_rows rec from req.to_state es) s)
          (λ s'. ok (0 + length (movable from es), s')) (moved, s1)
          (sym (move_entries-lem rec from req.to_state es 0 s) ∙ writes) in
      (
        s0,
        written,
        subst (λ (r : ℕ × S). complete rec from req r.0 r.1 ≡ ok (res, s'))
            (sym (ap (λ (r : Result (ℕ × S)). value_or (moved, s1) r) counted)) h1,
      )

  -- A transition that succeeds was allowed to the caller and not held; no current entry of the timesheet
  -- was behind, and at least one was in the state before. It first writes exactly those entries, each in
  -- the new state, and from there completes with their number as the result's.
  pub transition-moves :
      (req : TransitionRequest) (s s' : S) (res : TransitionResult)
      → transition rec req s ≡ ok (res, s')
      → (es : List TimeEntry) × (s1 : S) × (entries_in_period
            (rec.reader s)
            req.period_id
            req.employee_id
          ≡ ok es)
        × (transition_allowed
              (rec.reader s)
              req.employee_id
              (predecessor req.to_state)
              req.to_state
              req.who
              req.now_us
            ≡ ok tt)
        × (not_held rec req s ≡ ok tt)
        × All (λ e. is_behind (predecessor req.to_state) e ≡ false) es
        × (res.entries ≡ length (movable (predecessor req.to_state) es))
        × (res.entries ≢ 0)
        × (update_all rec time_entries (moved_rows rec (predecessor req.to_state) req.to_state es) s
            ≡ ok s1)
        × (complete rec (predecessor req.to_state) req res.entries s1 ≡ ok (res, s'))
  unfolding transition
  transition-moves req s s' res h =
      let from = predecessor req.to_state in
      let (es, passed, h1) =
        bind-ok (checked rec from req s) (λ es. advance rec from req es s) (res, s') h in
      let (allowed, held, found, none_behind, some_move) = checked-ok from req s es passed in
      let (s1, written, rest) = advance-moves from req es s s' res h1 in
      let n = complete-entries from req (0 + length (movable from es)) s1 s' res rest in
      (
        es,
        s1,
        found,
        allowed,
        held,
        none_behind,
        omega (arith, n),
        (λ z. some_move (omega (arith, n, z))),
        written,
        subst (λ m. complete rec from req m s1 ≡ ok (res, s')) (sym n) rest,
      )
