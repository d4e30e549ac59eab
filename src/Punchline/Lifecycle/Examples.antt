-- ===== src/Punchline/Lifecycle/Examples.antt =====
-- The lifecycle on a small pay period, by a recorder that keeps a list of what is written.
use archivum.Base.{
  ◌≡◌, ◌≢◌, refl, true, false, none, some, List, [], ◌∷◌, ◌++◌, Bytes, All, length, map,
}
use archivum.Base.Int.{ℤ, pos}
use archivum.Status.{ok}
use archivum.Engine.Types.{Row}
use archivum.Engine.PageFormat.{bytes_eq}
use archivum.Punchline.Fields.{
  as_int64, as_text, as_uuid, opt_ts, opt_id, opt_text, opt_int, opt_uuid, text_or_empty,
  int_or_zero, int_opt, uuid_opt,
}
use archivum.Punchline.Reader.{
  Index, Table, time_entries, shifts, approvals, pay_periods, time_entries_period, shifts_period,
}
use archivum.Punchline.Queries.{
  entries_in_period, shifts_in_period, period_of, all_rows, sort_by, insert_by,
}
use archivum.Punchline.Recorder.{Recorder}
use archivum.Punchline.Data.PayPeriod
use archivum.Punchline.Data.PayPeriod.{PayPeriod}
use archivum.Punchline.Data.Shift
use archivum.Punchline.Data.Shift.{Shift}
use archivum.Punchline.Data.Approval
use archivum.Punchline.Data.TimeEntry
use archivum.Punchline.Data.TimeEntry.{TimeEntry}
use archivum.Punchline.Rules.{
  Standing, key, transition_allowed, submit_allowed, same_employee, next_state, holds, contains,
}
use archivum.Punchline.Rules.Words.{recorded, submitted, released, locked, open_state, payroll}
use archivum.Punchline.Lifecycle.{
  Actor, TransitionRequest, TransitionResult, rank, predecessor, count_movable, move_entries,
  move_shifts, write_approval, resolve_approved, not_held, checked, advance, complete, transition,
}
use archivum.Punchline.Lifecycle.Lock.{
  LockResult, insert_id, lock_entries, lock_shifts, approve_locks, lock_rows, lock_period,
}
use archivum.Punchline.Lifecycle.Moves.{movable, is_behind, update_all, moved_rows}
use archivum.Punchline.Lifecycle.Transition.{transition-moves}
use archivum.Punchline.Lifecycle.Locking.{current, is_unreleased, lock_period-released}

abbrev entry : ℤ → Bytes → ℤ → TimeEntry
entry id state superseded_by = record {
  id = id;
  entry_uuid = [];
  employee_id = pos 7;
  device_id = pos 2;
  journal_id = none;
  journal_sequence = pos 0;
  kind = [];
  device_time = pos 100;
  local_time = [];
  site_zone = [];
  tzdb_version = [];
  receipt_time = pos 100;
  attestation = [];
  clock_divergence_us = none;
  period_id = pos 5;
  state = state;
  pay_code = [];
  approval_audit_id = pos 0;
  correction_of = pos 0;
  correction_reason = [];
  created_at = pos 100;
  note = [];
  superseded_by = superseded_by;
}

abbrev shift : Bytes → Shift
shift state = record {
  id = pos 1;
  employee_id = pos 7;
  device_id = pos 2;
  in_entry_id = pos 1;
  out_entry_id = pos 0;
  local_day = pos 0;
  period_id = pos 5;
  in_time = pos 100;
  out_time = pos 0;
  duration_us = none;
  pay_code = [];
  state = state;
}

abbrev period : PayPeriod
period = record {
  id = pos 5;
  start_day = pos 0;
  end_day = pos 13;
  site_zone = [];
  tzdb_version = [];
  state = open_state;
  submit_by = pos 0;
  approve_by = pos 0;
  release_at = pos 0;
}

abbrev scan_of : Bytes → Index → List Row
scan_of state time_entries_period =
    TimeEntry.to_row (entry (pos 1) state (pos 0))
    ∷ TimeEntry.to_row (entry (pos 2) recorded (pos 1))
    ∷ []
scan_of state shifts_period = Shift.to_row (shift state) ∷ []
scan_of state i = []

abbrev Log : Type 0
Log = List (Table × Row)

-- Every entry that is not superseded is in the given state, and nothing is refused.
abbrev logged : Bytes → Recorder Log
logged state = record {
  reader = λ s. record {
    get = λ t k. ok (some (PayPeriod.to_row period));
    scan = λ i k. record { rows = scan_of state i; ending = ok tt };
  };
  update = λ t r s. ok (s ++ (t, r) ∷ []);
  insert = λ t r s. ok (s ++ (t, r) ∷ []);
  next_id = λ t s. ok (pos 9, s);
  audit_id = pos 77;
  open_hold = λ e p s. ok none;
  resolve_matching = λ k e p h t s. ok (0, s);
  open_exceptions = λ e k s. ok [];
  close_exception = λ i a b t s. ok s;
}

abbrev actor : Actor
actor = record { tid = []; oid = []; account = [] }

abbrev request : TransitionRequest
request = record {
  period_id = pos 5;
  employee_id = pos 7;
  to_state = submitted;
  who = record { roles = []; employee_id = some (pos 7); override_reason = [] };
  actor = actor;
  note = [];
  now_us = pos 200;
}

abbrev result : TransitionResult
result = record {
  from_state = recorded;
  entries = 1;
  shifts = 1;
  approval_id = pos 9;
  exceptions_resolved = 0;
}

abbrev submit_log : Log
submit_log =
    (time_entries, TimeEntry.to_row (entry (pos 1) submitted (pos 0)))
    ∷ (shifts, Shift.to_row (shift submitted))
    ∷ (
      approvals,
      Approval.to_row (record {
        id = pos 9;
        period_id = pos 5;
        employee_id = pos 7;
        from_state = recorded;
        to_state = submitted;
        acted_by_tid = [];
        acted_by_oid = [];
        acted_by_account = [];
        acted_at = pos 200;
        note = [];
        audit_id = pos 77;
      }),
    )
    ∷ []

submits : transition (logged recorded) request [] ≡ ok (result, submit_log)
unfolding transition checked advance complete predecessor transition_allowed submit_allowed
    same_employee next_state not_held entries_in_period shifts_in_period sort_by insert_by
    count_movable rank move_entries move_shifts write_approval resolve_approved bytes_eq as_int64
    as_text as_uuid opt_ts opt_id opt_text opt_int opt_uuid text_or_empty int_or_zero int_opt
    uuid_opt TimeEntry.to_row TimeEntry.from_row Shift.to_row Shift.from_row PayPeriod.to_row
    PayPeriod.from_row Approval.to_row
submits = refl

transition-moves_example :
    (es : List TimeEntry) × (s1 : Log) × (entries_in_period
        ((logged recorded).reader [])
        request.period_id
        request.employee_id
      ≡ ok es)
    × (transition_allowed
          ((logged recorded).reader [])
          request.employee_id
          (predecessor request.to_state)
          request.to_state
          request.who
          request.now_us
        ≡ ok tt)
    × (not_held (logged recorded) request [] ≡ ok tt)
    × All (λ e. is_behind (predecessor request.to_state) e ≡ false) es
    × (result.entries ≡ length (movable (predecessor request.to_state) es))
    × (result.entries ≢ 0)
    × (update_all
          (logged recorded)
          time_entries
          (moved_rows (logged recorded) (predecessor request.to_state) request.to_state es)
          []
        ≡ ok s1)
    × (complete (logged recorded) (predecessor request.to_state) request result.entries s1
        ≡ ok (result, submit_log))
transition-moves_example = transition-moves (logged recorded) request [] submit_log result submits

abbrev payroll_clerk : Standing
payroll_clerk = record { roles = payroll ∷ []; employee_id = none; override_reason = [] }

abbrev lock_result : LockResult
lock_result = record { employees = 1; entries = 1 }

abbrev lock_log : Log
lock_log =
    (time_entries, TimeEntry.to_row (entry (pos 1) locked (pos 0)))
    ∷ (shifts, Shift.to_row (shift locked))
    ∷ (
      approvals,
      Approval.to_row (record {
        id = pos 9;
        period_id = pos 5;
        employee_id = pos 7;
        from_state = released;
        to_state = locked;
        acted_by_tid = [];
        acted_by_oid = [];
        acted_by_account = [];
        acted_at = pos 200;
        note = [];
        audit_id = pos 77;
      }),
    )
    ∷ (pay_periods, PayPeriod.to_row (record period { state = locked; release_at = pos 200 }))
    ∷ []

locks :
    lock_period (logged released) (pos 5) payroll_clerk actor (pos 200) []
    ≡ ok (lock_result, lock_log)
unfolding lock_period lock_rows lock_entries lock_shifts approve_locks insert_id transition_allowed
    next_state holds contains write_approval bytes_eq as_int64 as_text as_uuid opt_ts opt_id
    opt_text opt_int opt_uuid text_or_empty int_or_zero int_opt uuid_opt TimeEntry.to_row
    TimeEntry.from_row Shift.to_row Shift.from_row PayPeriod.to_row PayPeriod.from_row
    Approval.to_row
locks = refl

lock_period-released_example :
    (found : PayPeriod) × (rows : List Row) × (period_of ((logged released).reader []) (pos 5)
      ≡ ok found)
    × (bytes_eq found.state open_state ≡ true)
    × (transition_allowed
          ((logged released).reader [])
          (pos 0)
          released
          locked
          payroll_clerk
          (pos 200)
        ≡ ok tt)
    × (all_rows (((logged released).reader []).scan time_entries_period (key (pos 5))) ≡ ok rows)
    × All (λ e. is_unreleased e ≡ false) (map TimeEntry.from_row rows)
    × (lock_result.entries ≡ length (current (map TimeEntry.from_row rows)))
lock_period-released_example =
    lock_period-released (logged released) (pos 5) payroll_clerk actor (pos 200) [] lock_log
      lock_result locks

from_row-to_row_example :
    TimeEntry.from_row (TimeEntry.to_row (entry (pos 1) recorded (pos 0)))
    ≡ entry (pos 1) recorded (pos 0)
from_row-to_row_example = TimeEntry.from_row-to_row (entry (pos 1) recorded (pos 0))
