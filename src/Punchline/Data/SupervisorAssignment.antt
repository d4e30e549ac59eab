-- ===== src/Punchline/Data/SupervisorAssignment.antt =====
-- modules/punchline/src/data.cpp: `SupervisorAssignment`, the row that the store keeps of it, and back.
use archivum.Base.{[], ◌∷◌, ◌≡◌, Bytes}
use archivum.Base.Int.{ℤ}
use archivum.Engine.Types.{Value, Row}
use archivum.Punchline.Fields.{as_int64, as_text, opt_ts, int_or_zero, column, int_or_zero-opt_ts}

pub record SupervisorAssignment : Type 0 where
  pub id : ℤ
  pub employee_id : ℤ
  pub supervisor_employee_id : ℤ
  pub effective_from : ℤ
  pub effective_to : ℤ
  pub assigned_by : Bytes
  pub audit_id : ℤ

unfoldable pub to_row : SupervisorAssignment → Row
to_row x =
    Value.integer x.id
    ∷ Value.integer x.employee_id
    ∷ Value.integer x.supervisor_employee_id
    ∷ Value.timestamp x.effective_from
    ∷ opt_ts x.effective_to
    ∷ Value.text x.assigned_by
    ∷ Value.integer x.audit_id
    ∷ []

unfoldable pub from_row : Row → SupervisorAssignment
unfolding as_int64 as_text
from_row r = record {
  id = as_int64 (column r 0);
  employee_id = as_int64 (column r 1);
  supervisor_employee_id = as_int64 (column r 2);
  effective_from = as_int64 (column r 3);
  effective_to = int_or_zero (column r 4);
  assigned_by = as_text (column r 5);
  audit_id = as_int64 (column r 6);
}

-- The row of a `SupervisorAssignment` reads back as that `SupervisorAssignment`.
pub from_row-to_row : (x : SupervisorAssignment) → from_row (to_row x) ≡ x
unfolding from_row to_row
from_row-to_row x = rw (int_or_zero-opt_ts x.effective_to)
