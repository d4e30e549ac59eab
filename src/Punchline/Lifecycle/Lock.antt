-- ===== src/Punchline/Lifecycle/Lock.antt =====
-- `lock_period` of modules/punchline/src/lifecycle.cpp.
use archivum.Base.{ℕ, ◌+◌, if◌then◌else◌, not, List, [], ◌∷◌, map}
use archivum.Base.Int.{ℤ, pos, ltb_ℤ}
use archivum.Status.{Result, ok, err, constraint, require, ◌>>=◌, ◌>>◌}
use archivum.Engine.PageFormat.{bytes_eq}
use archivum.Punchline.Fields.{eqb_ℤ}
use archivum.Punchline.Reader.{
  time_entries, shifts, pay_periods, time_entries_period, shifts_period,
}
use archivum.Punchline.Queries.{all_rows, period_of}
use archivum.Punchline.Recorder.{Recorder}
use archivum.Punchline.Data.PayPeriod
use archivum.Punchline.Data.PayPeriod.{PayPeriod}
use archivum.Punchline.Data.TimeEntry
use archivum.Punchline.Data.TimeEntry.{TimeEntry}
use archivum.Punchline.Data.Shift
use archivum.Punchline.Data.Shift.{Shift}
use archivum.Punchline.Rules.{Standing, key, transition_allowed}
use archivum.Punchline.Rules.Words.{released, locked, open_state}
use archivum.Punchline.Lifecycle.{Actor, is_current, write_approval}

pub record LockResult : Type 0 where
  pub employees : ℕ
  pub entries : ℕ

-- `++per_employee[id]`, of which only the keys are read, in ascending order.
unfoldable pub insert_id : ℤ → List ℤ → List ℤ
insert_id i [] = i ∷ []
insert_id i (j ∷ js) =
    let later = insert_id i js in
    if eqb_ℤ i j then j ∷ js else if ltb_ℤ i j then i ∷ j ∷ js else j ∷ later

module _ {S : Type 0} (rec : Recorder S) where
  -- The loop over the entries, from the employees and the count so far.
  unfoldable pub lock_entries : List TimeEntry → List ℤ → ℕ → S → Result (List ℤ × ℕ × S)
  unfolding insert_id
  lock_entries [] employees n s = ok (employees, n, s)
  lock_entries (e ∷ es) employees n s =
      if not (is_current e)
      then lock_entries es employees n s
      else if not (bytes_eq e.state released)
      then err constraint
      else (do
        s' ← rec.update time_entries (TimeEntry.to_row (record e { state = locked })) s
        lock_entries es (insert_id e.employee_id employees) (n + 1) s')

  unfoldable pub lock_shifts : List Shift → S → Result S
  lock_shifts [] s = ok s
  lock_shifts (sh ∷ shs) s = if not (bytes_eq sh.state released) then lock_shifts shs s else do
    s' ← rec.update shifts (Shift.to_row (record sh { state = locked })) s
    lock_shifts shs s'

  unfoldable pub approve_locks : ℤ → Actor → ℤ → List ℤ → ℕ → S → Result (ℕ × S)
  approve_locks period_id actor now_us [] n s = ok (n, s)
  approve_locks period_id actor now_us (employee ∷ rest) n s = do
    (id, s') ← write_approval rec period_id employee released locked actor [] now_us s
    approve_locks period_id actor now_us rest (n + 1) s'

  -- Behind the checks: the entries, the shifts, the approvals and the period itself.
  unfoldable pub lock_rows :
      PayPeriod → ℤ → Actor → ℤ → List TimeEntry → S → Result (LockResult × S)
  lock_rows period period_id actor now_us entries s = do
    (employees, n, s1) ← lock_entries entries [] 0 s
    found ← all_rows ((rec.reader s1).scan shifts_period (key period_id))
    s2 ← lock_shifts (map Shift.from_row found) s1
    (m, s3) ← approve_locks period_id actor now_us employees 0 s2
    s4 ←
        rec.update pay_periods
          (PayPeriod.to_row (record period { state = locked; release_at = now_us })) s3
    ok (record { employees = m; entries = n }, s4)

  unfoldable pub lock_period : ℤ → Standing → Actor → ℤ → S → Result (LockResult × S)
  lock_period period_id who actor now_us s = do
    period ← period_of (rec.reader s) period_id
    require (bytes_eq period.state open_state) constraint
    transition_allowed (rec.reader s) (pos 0) released locked who now_us
    found ← all_rows ((rec.reader s).scan time_entries_period (key period_id))
    lock_rows period period_id actor now_us (map TimeEntry.from_row found) s
