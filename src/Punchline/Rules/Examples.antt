-- ===== src/Punchline/Rules/Examples.antt =====
-- The rules at a small table: employee 7, whom employee 3 and then employee 4 supervise.
use archivum.Base.{◌≤◌, ◌≡◌, ◌⊎◌, ◌↔◌, refl, arith, true, false, none, some, List, [], ◌∷◌}
use archivum.Base.Int.{ℤ, pos}
use archivum.Status.{ok}
use archivum.Engine.Types.{Row}
use archivum.Engine.PageFormat.{bytes_eq}
use archivum.Punchline.Fields.{as_int64, opt_ts, int_or_zero}
use archivum.Punchline.Reader.{Reader, Index, first_row, visit, supervisor_assignments_employee}
use archivum.Punchline.Data.SupervisorAssignment.{SupervisorAssignment, to_row}
use archivum.Punchline.Rules.{
  Standing, contains, holds, is_empty, next_state, same_employee, supervises, supervisor_at,
  submit_allowed, approve_allowed, transition_allowed, one_active_device,
  supervisor_assignment_valid, in_force, overlaps,
}
use archivum.Punchline.Rules.Words.{recorded, submitted, approved, payroll, supervisor}
use archivum.Punchline.Rules.Visits.{count, without}
use archivum.Punchline.Rules.Supervisors.{
  devices_of, assignments_of, is_active, one_active_device_iff,
  supervisor_assignment_valid-exclusive,
}
use archivum.Punchline.Rules.Transitions.{
  Follows, IsSupervisor, transition_allowed-approved, transition_allowed-plain,
  transition_allowed-Follows,
}

abbrev assignment : ℤ → ℤ → ℤ → ℤ → SupervisorAssignment
assignment id supervisor_id from to = record {
  id = id;
  employee_id = pos 7;
  supervisor_employee_id = supervisor_id;
  effective_from = from;
  effective_to = to;
  assigned_by = [];
  audit_id = pos 1;
}

abbrev scan_of : Index → List Row
scan_of supervisor_assignments_employee =
    to_row (assignment (pos 1) (pos 3) (pos 10) (pos 100))
    ∷ to_row (assignment (pos 2) (pos 4) (pos 100) (pos 0))
    ∷ []
scan_of i = []

abbrev table : Reader
table = record { get = λ t k. ok none; scan = λ i k. record { rows = scan_of i; ending = ok tt } }

abbrev third : SupervisorAssignment
third = assignment (pos 2) (pos 4) (pos 150) (pos 0)

valid : supervisor_assignment_valid table (pos 7) (pos 4) (pos 150) (pos 0) (pos 2) ≡ ok tt
unfolding supervisor_assignment_valid visit first_row overlaps to_row as_int64 opt_ts int_or_zero
valid = refl

one_before : count (in_force (pos 160)) (without (pos 2) (assignments_of table (pos 7)).rows) ≡ 0
unfolding in_force without to_row as_int64 opt_ts int_or_zero
one_before = refl

supervisor_assignment_valid-exclusive_example :
    count (in_force (pos 160)) (to_row third ∷ without (pos 2) (assignments_of table (pos 7)).rows)
    ≤ 1
supervisor_assignment_valid-exclusive_example =
    supervisor_assignment_valid-exclusive table third (pos 2) (pos 160) valid
      (omega (arith, one_before))

one_active_device_iff_example :
    (one_active_device table (pos 7) (pos 0) ≡ ok tt)
    ↔ (count is_active (without (pos 0) (devices_of table (pos 7)).rows) ≡ 0)
one_active_device_iff_example = one_active_device_iff table (pos 7) (pos 0) refl

abbrev boss : Standing
boss = record { roles = supervisor ∷ []; employee_id = some (pos 4); override_reason = [] }

boss_approves : transition_allowed table (pos 7) submitted approved boss (pos 160) ≡ ok tt
unfolding transition_allowed approve_allowed supervises supervisor_at holds contains bytes_eq
    next_state same_employee visit first_row in_force to_row as_int64 opt_ts int_or_zero
boss_approves = refl

transition_allowed-approved_example :
    IsSupervisor table (pos 7) boss (pos 160)
    ⊎ ((holds boss payroll ≡ true) × (is_empty boss.override_reason ≡ false))
transition_allowed-approved_example =
    transition_allowed-approved table (pos 7) submitted boss (pos 160) boss_approves

transition_allowed-Follows_example : Follows submitted approved
transition_allowed-Follows_example =
    transition_allowed-Follows table (pos 7) submitted approved boss (pos 160) boss_approves

abbrev plain : Standing
plain = record { roles = []; employee_id = some (pos 7); override_reason = [] }

plain_submits : transition_allowed table (pos 7) recorded submitted plain (pos 160) ≡ ok tt
unfolding transition_allowed submit_allowed bytes_eq next_state same_employee
plain_submits = refl

transition_allowed-plain_example :
    (recorded ≡ recorded) × (submitted ≡ submitted) × (plain.employee_id ≡ some (pos 7))
transition_allowed-plain_example =
    transition_allowed-plain table (pos 7) recorded submitted plain (pos 160) refl plain_submits
