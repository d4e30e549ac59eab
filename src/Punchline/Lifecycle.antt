-- ===== src/Punchline/Lifecycle.antt =====
-- modules/punchline/src/lifecycle.cpp: the approval of a timesheet and the lock of a pay period. The
-- store and the recorder are the interface `Recorder`; a step gives the state behind it or an error.
pub mod Lock
mod Moves
mod Transition
mod Locking
mod Examples
use archivum.Base.{
  ℕ, zero, suc, ◌+◌, ◌==◌, if◌then◌else◌, Bool, true, false, not, ◌&&◌, ◌||◌, Option, none, some,
  List, [], ◌∷◌, ◌++◌, Bytes, map,
}
use archivum.Base.Int.{ℤ, pos, negsuc, ltb_ℤ}
use archivum.Status.{
  Result, Status, ok, err, constraint, not_found, invalid_argument, require, ◌>>=◌, ◌>>◌,
}
use archivum.Engine.Types.{Value, Row}
use archivum.Engine.PageFormat.{bytes_eq}
use archivum.Punchline.Fields.{eqb_ℤ}
use archivum.Punchline.Reader.{
  Table, Reader, Scan, time_entries, shifts, approvals, pay_periods, time_entries_period,
  shifts_period,
}
use archivum.Punchline.Queries.{entries_in_period, shifts_in_period, period_of}
use archivum.Punchline.Recorder.{Recorder}
use archivum.Punchline.Data.PayPeriod
use archivum.Punchline.Data.PayPeriod.{PayPeriod}
use archivum.Punchline.Data.TimeEntry
use archivum.Punchline.Data.TimeEntry.{TimeEntry}
use archivum.Punchline.Data.Shift
use archivum.Punchline.Data.Shift.{Shift}
use archivum.Punchline.Data.Approval
use archivum.Punchline.Data.Approval.{Approval}
use archivum.Punchline.Data.Exception.{Exception}
use archivum.Punchline.Rules.{Standing, is_empty, is_some, key, transition_allowed}
use archivum.Punchline.Rules.Words.{
  recorded, submitted, approved, released, locked, open_state, late_punch, past_cutoff,
  device_attested_count, resolved, approval, override_prefix,
}

unfoldable pub rank : Bytes → ℤ
rank state =
    if bytes_eq state recorded
    then pos 0
    else if bytes_eq state submitted
    then pos 1
    else if bytes_eq state approved
    then pos 2
    else if bytes_eq state released
    then pos 3
    else if bytes_eq state locked
    then pos 4
    else negsuc 0

unfoldable pub predecessor : Bytes → Bytes
predecessor to =
    if bytes_eq to submitted
    then recorded
    else if bytes_eq to approved
    then submitted
    else if bytes_eq to released
    then approved
    else if bytes_eq to locked
    then released
    else []

pub record Actor : Type 0 where
  pub tid : Bytes
  pub oid : Bytes
  pub account : Bytes

pub record TransitionRequest : Type 0 where
  pub period_id : ℤ
  pub employee_id : ℤ
  pub to_state : Bytes
  pub who : Standing
  pub actor : Actor
  pub note : Bytes
  pub now_us : ℤ

pub record TransitionResult : Type 0 where
  pub from_state : Bytes
  pub entries : ℕ
  pub shifts : ℕ
  pub approval_id : ℤ
  pub exceptions_resolved : ℕ

-- An entry that no correction supersedes.
abbrev pub is_current : TimeEntry → Bool
is_current e = eqb_ℤ e.superseded_by (pos 0)

-- The first loop of `transition`: how many entries can move, or an error at one that is behind.
unfoldable pub count_movable : Bytes → List TimeEntry → ℕ → Result ℕ
count_movable from [] movable = ok movable
count_movable from (e ∷ es) movable =
    if not (is_current e)
    then count_movable from es movable
    else if ltb_ℤ (rank e.state) (rank from)
    then err constraint
    else count_movable from es (if bytes_eq e.state from then movable + 1 else movable)

module _ {S : Type 0} (rec : Recorder S) where
  abbrev pub moved_entry : Bytes → TimeEntry → TimeEntry
  moved_entry to e = record e {
    state = to;
    approval_audit_id = if bytes_eq to approved then rec.audit_id else e.approval_audit_id;
  }

  unfoldable pub move_entries : Bytes → Bytes → List TimeEntry → ℕ → S → Result (ℕ × S)
  move_entries from to [] n s = ok (n, s)
  move_entries from to (e ∷ es) n s =
      if not (is_current e) || not (bytes_eq e.state from) then move_entries from to es n s else do
        s' ← rec.update time_entries (TimeEntry.to_row (moved_entry to e)) s
        move_entries from to es (n + 1) s'

  unfoldable pub move_shifts : Bytes → Bytes → List Shift → ℕ → S → Result (ℕ × S)
  move_shifts from to [] n s = ok (n, s)
  move_shifts from to (sh ∷ shs) n s =
      if not (bytes_eq sh.state from) then move_shifts from to shs n s else do
        s' ← rec.update shifts (Shift.to_row (record sh { state = to })) s
        move_shifts from to shs (n + 1) s'

  unfoldable pub write_approval : ℤ → ℤ → Bytes → Bytes → Actor → Bytes → ℤ → S → Result (ℤ × S)
  write_approval period_id employee_id from to actor note now_us s = do
    (id, s1) ← rec.next_id approvals s
    s2 ←
        rec.insert approvals
          (Approval.to_row (record {
            id = id;
            period_id = period_id;
            employee_id = employee_id;
            from_state = from;
            to_state = to;
            acted_by_tid = actor.tid;
            acted_by_oid = actor.oid;
            acted_by_account = actor.account;
            acted_at = now_us;
            note = note;
            audit_id = rec.audit_id;
          }))
          s1
    ok (id, s2)

  unfoldable pub close_late : ℤ → ℤ → List Exception → ℕ → S → Result (ℕ × S)
  close_late period_id now_us [] n s = ok (n, s)
  close_late period_id now_us (x ∷ xs) n s =
      if not (eqb_ℤ x.period_id period_id) then close_late period_id now_us xs n s else do
        s' ← rec.close_exception x.id resolved approval now_us s
        close_late period_id now_us xs (n + 1) s'

  -- What an approval resolves.
  unfoldable pub resolve_approved : TransitionRequest → S → Result (ℕ × S)
  resolve_approved req s = if not (bytes_eq req.to_state approved) then ok (0, s) else do
    (n, s1) ←
        rec.resolve_matching device_attested_count req.employee_id req.period_id approval req.now_us
          s
    (m, s2) ← rec.resolve_matching past_cutoff req.employee_id req.period_id approval req.now_us s1
    late ← rec.open_exceptions req.employee_id late_punch s2
    close_late req.period_id req.now_us late (n + m) s2

  -- A timesheet that is held is not released.
  unfoldable pub not_held : TransitionRequest → S → Status
  not_held req s = if not (bytes_eq req.to_state released) then ok tt else do
    hold ← rec.open_hold req.employee_id req.period_id s
    require (not (is_some hold)) constraint

  abbrev pub note_of : TransitionRequest → Bytes
  note_of req =
      if is_empty req.who.override_reason
      then req.note
      else override_prefix ++ req.who.override_reason

  -- What `transition` checks before it writes: the entries of the timesheet.
  unfoldable pub checked : Bytes → TransitionRequest → S → Result (List TimeEntry)
  checked from req s = do
    require (not (is_empty from || bytes_eq req.to_state locked)) invalid_argument
    period ← period_of (rec.reader s) req.period_id
    require (bytes_eq period.state open_state) constraint
    transition_allowed (rec.reader s) req.employee_id from req.to_state req.who req.now_us
    not_held req s
    entries ← entries_in_period (rec.reader s) req.period_id req.employee_id
    movable ← count_movable from entries 0
    require (not (movable == 0)) constraint
    ok entries

  -- Behind the entries: the shifts, the approval and what it resolves.
  unfoldable pub complete : Bytes → TransitionRequest → ℕ → S → Result (TransitionResult × S)
  complete from req moved s1 = do
    found ← shifts_in_period (rec.reader s1) req.period_id req.employee_id
    (shifted, s2) ← move_shifts from req.to_state found 0 s1
    (id, s3) ←
        write_approval req.period_id req.employee_id from req.to_state req.actor (note_of req)
          req.now_us s2
    (n, s4) ← resolve_approved req s3
    ok (
      record {
        from_state = from;
        entries = moved;
        shifts = shifted;
        approval_id = id;
        exceptions_resolved = n;
      },
      s4,
    )

  unfoldable pub advance :
      Bytes → TransitionRequest → List TimeEntry → S → Result (TransitionResult × S)
  advance from req entries s = do
    (moved, s1) ← move_entries from req.to_state entries 0 s
    complete from req moved s1

  unfoldable pub transition : TransitionRequest → S → Result (TransitionResult × S)
  unfolding predecessor
  transition req s = do
    entries ← checked (predecessor req.to_state) req s
    advance (predecessor req.to_state) req entries s
