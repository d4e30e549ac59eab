-- ===== src/Punchline/Data/Exception.antt =====
-- modules/punchline/src/data.cpp: `Exception`, the row that the store keeps of it, and back.
use archivum.Base.{[], ◌∷◌, ◌≡◌, Bytes}
use archivum.Base.Int.{ℤ}
use archivum.Engine.Types.{Value, Row}
use archivum.Punchline.Fields.{
  as_int64, as_text, opt_text, opt_ts, opt_id, text_or_empty, int_or_zero, column,
  int_or_zero-opt_id, int_or_zero-opt_ts, text_or_empty-opt_text,
}

pub record Exception : Type 0 where
  pub id : ℤ
  pub kind : Bytes
  pub state : Bytes
  pub employee_id : ℤ
  pub device_id : ℤ
  pub entry_id : ℤ
  pub period_id : ℤ
  pub detail : Bytes
  pub opened_at : ℤ
  pub resolved_at : ℤ
  pub resolved_by : Bytes
  pub resolution_audit_id : ℤ

unfoldable pub to_row : Exception → Row
to_row x =
    Value.integer x.id
    ∷ Value.text x.kind
    ∷ Value.text x.state
    ∷ opt_id x.employee_id
    ∷ opt_id x.device_id
    ∷ opt_id x.entry_id
    ∷ opt_id x.period_id
    ∷ opt_text x.detail
    ∷ Value.timestamp x.opened_at
    ∷ opt_ts x.resolved_at
    ∷ opt_text x.resolved_by
    ∷ opt_id x.resolution_audit_id
    ∷ []

unfoldable pub from_row : Row → Exception
unfolding as_int64 as_text
from_row r = record {
  id = as_int64 (column r 0);
  kind = as_text (column r 1);
  state = as_text (column r 2);
  employee_id = int_or_zero (column r 3);
  device_id = int_or_zero (column r 4);
  entry_id = int_or_zero (column r 5);
  period_id = int_or_zero (column r 6);
  detail = text_or_empty (column r 7);
  opened_at = as_int64 (column r 8);
  resolved_at = int_or_zero (column r 9);
  resolved_by = text_or_empty (column r 10);
  resolution_audit_id = int_or_zero (column r 11);
}

-- The row of an `Exception` reads back as that `Exception`.
pub from_row-to_row : (x : Exception) → from_row (to_row x) ≡ x
unfolding from_row to_row
from_row-to_row x = rw (
  int_or_zero-opt_id x.employee_id,
  int_or_zero-opt_id x.device_id,
  int_or_zero-opt_id x.entry_id,
  int_or_zero-opt_id x.period_id,
  text_or_empty-opt_text x.detail,
  int_or_zero-opt_ts x.resolved_at,
  text_or_empty-opt_text x.resolved_by,
  int_or_zero-opt_id x.resolution_audit_id,
)
