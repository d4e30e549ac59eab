-- ===== src/Punchline/Lifecycle/Locking.antt =====
-- `lock_period` of modules/punchline/src/lifecycle.cpp: what a lock that succeeds says of the period.
use archivum.Base.{
  ℕ, ◌+◌, ◌≡◌, sym, ap, ◌∙◌, arith, if◌then◌else◌, Bool, true, false, not, ◌&&◌, List, [], ◌∷◌, All,
  length, map, Bool-cases, inl, inr,
}
use archivum.Base.Int.{ℤ, pos}
use archivum.Status.{Result, ok, constraint, require, ◌>>=◌, value_or, bind-ok, require-ok}
use archivum.Engine.Types.{Row}
use archivum.Engine.PageFormat.{bytes_eq}
use archivum.Punchline.Reader.{pay_periods, time_entries, time_entries_period, shifts_period}
use archivum.Punchline.Queries.{period_of, all_rows}
use archivum.Punchline.Recorder.{Recorder}
use archivum.Punchline.Data.PayPeriod
use archivum.Punchline.Data.PayPeriod.{PayPeriod}
use archivum.Punchline.Data.Shift
use archivum.Punchline.Data.TimeEntry
use archivum.Punchline.Data.TimeEntry.{TimeEntry}
use archivum.Punchline.Rules.{Standing, key, transition_allowed}
use archivum.Punchline.Rules.Words.{released, locked, open_state}
use archivum.Punchline.Lifecycle.{Actor, is_current}
use archivum.Punchline.Lifecycle.Lock.{
  LockResult, insert_id, lock_entries, lock_shifts, approve_locks, lock_rows, lock_period,
}

-- The entries that no correction supersedes.
unfoldable pub current : List TimeEntry → List TimeEntry
current [] = []
current (e ∷ es) = let later = current es in if is_current e then e ∷ later else later

-- A current entry that is not released.
abbrev pub is_unreleased : TimeEntry → Bool
is_unreleased e = is_current e && not (bytes_eq e.state released)

module _ {S : Type 0} (rec : Recorder S) where
  lock_entries-ok :
      (es : List TimeEntry) (employees employees' : List ℤ) (n m : ℕ) (s s' : S)
      → lock_entries rec es employees n s ≡ ok (employees', m, s')
      → All (λ e. is_unreleased e ≡ false) es × (m ≡ n + length (current es))
  unfolding lock_entries current
  lock_entries-ok [] employees employees' n m s s' h = (
    tt,
    sym (ap (λ (r : Result (List ℤ × ℕ × S)). (value_or (employees', m, s') r).1) h) ∙ omega arith,
  )
  lock_entries-ok (e ∷ es) employees employees' n m s s' h = elim (Bool-cases (is_current e)) [
    | inl live ↦
        let (s1, written, rest) =
          bind-ok (rec.update time_entries row s)
            (λ s1. lock_entries rec es (insert_id e.employee_id employees) (n + 1) s1)
            (employees', m, s') (goes_on live) in
        let (later, count) =
          lock_entries-ok es (insert_id e.employee_id employees) employees' (n + 1) m s1 s' rest in
        ((ground (arith, is_released live), later), rw live (omega (arith, count)))
    | inr superseded ↦
        let (later, count) = lock_entries-ok es employees employees' n m s s' (skips superseded) in
        ((rw superseded, later), rw superseded count)
  ]
    where
      row : Row
      row = TimeEntry.to_row (record e { state = locked })

      skips : is_current e ≡ false → lock_entries rec es employees n s ≡ ok (employees', m, s')
      skips superseded = ground arith

      is_released : is_current e ≡ true → bytes_eq e.state released ≡ true
      is_released live = ground arith

      goes_on :
          is_current e ≡ true
          → (rec.update time_entries row s >>= λ s1.
              lock_entries rec es (insert_id e.employee_id employees) (n + 1) s1)
            ≡ ok (employees', m, s')
      goes_on live = ground (arith, is_released live)

  -- A lock that succeeds found the period open and allowed to the caller, and every current entry of the
  -- period released; the result counts the current entries. So one entry that is not released keeps the
  -- period unlocked.
  pub lock_period-released :
      (period_id : ℤ) (who : Standing) (actor : Actor) (now_us : ℤ) (s s' : S) (res : LockResult)
      → lock_period rec period_id who actor now_us s ≡ ok (res, s')
      → (period : PayPeriod) × (rows : List Row) × (period_of (rec.reader s) period_id ≡ ok period)
        × (bytes_eq period.state open_state ≡ true)
        × (transition_allowed (rec.reader s) (pos 0) released locked who now_us ≡ ok tt)
        × (all_rows ((rec.reader s).scan time_entries_period (key period_id)) ≡ ok rows)
        × All (λ e. is_unreleased e ≡ false) (map TimeEntry.from_row rows)
        × (res.entries ≡ length (current (map TimeEntry.from_row rows)))
  unfolding lock_period lock_rows
  lock_period-released period_id who actor now_us s s' res h =
      let (period, known, h1) = bind-ok (period_of (rec.reader s) period_id) _ (res, s') h in
      let (u2, is_open, h2) =
        bind-ok (require (bytes_eq period.state open_state) constraint) _ (res, s') h1 in
      let (u3, allowed, h3) =
        bind-ok (transition_allowed (rec.reader s) (pos 0) released locked who now_us) _ (res, s')
          h2 in
      let (rows, found, h4) =
        bind-ok (all_rows ((rec.reader s).scan time_entries_period (key period_id))) _ (res, s')
          h3 in
      let ((employees, n, s1), entries_locked, h5) =
        bind-ok (lock_entries rec (map TimeEntry.from_row rows) [] 0 s) _ (res, s') h4 in
      let (shown, shifts_found, h6) =
        bind-ok (all_rows ((rec.reader s1).scan shifts_period (key period_id))) _ (res, s') h5 in
      let (s2, shifts_locked, h7) =
        bind-ok (lock_shifts rec (map Shift.from_row shown) s1) _ (res, s') h6 in
      let ((m, s3), recorded, h8) =
        bind-ok (approve_locks rec period_id actor now_us employees 0 s2) _ (res, s') h7 in
      let (s4, stored, h9) =
        bind-ok
          (rec.update pay_periods
            (PayPeriod.to_row (record period { state = locked; release_at = now_us })) s3)
          _ (res, s') h8 in
      let (all_released, count) =
        lock_entries-ok (map TimeEntry.from_row rows) [] employees 0 n s s1 entries_locked in
      (
        period,
        rows,
        known,
        require-ok (bytes_eq period.state open_state) constraint is_open,
        allowed,
        found,
        all_released,
        sym (ap (λ (r : Result (LockResult × S)). (value_or (res, s') r).0.entries) h9)
            ∙ count
            ∙ omega arith,
      )
