-- ===== src/Punchline/Data/Approval.antt =====
-- modules/punchline/src/data.cpp: `Approval`, the row that the store keeps of it, and back.
use archivum.Base.{[], ◌∷◌, ◌≡◌, Bytes}
use archivum.Base.Int.{ℤ}
use archivum.Engine.Types.{Value, Row}
use archivum.Punchline.Fields.{
  as_int64, as_text, opt_text, text_or_empty, column, text_or_empty-opt_text,
}

pub record Approval : Type 0 where
  pub id : ℤ
  pub period_id : ℤ
  pub employee_id : ℤ
  pub from_state : Bytes
  pub to_state : Bytes
  pub acted_by_tid : Bytes
  pub acted_by_oid : Bytes
  pub acted_by_account : Bytes
  pub acted_at : ℤ
  pub note : Bytes
  pub audit_id : ℤ

unfoldable pub to_row : Approval → Row
to_row x =
    Value.integer x.id
    ∷ Value.integer x.period_id
    ∷ Value.integer x.employee_id
    ∷ Value.text x.from_state
    ∷ Value.text x.to_state
    ∷ opt_text x.acted_by_tid
    ∷ opt_text x.acted_by_oid
    ∷ opt_text x.acted_by_account
    ∷ Value.timestamp x.acted_at
    ∷ opt_text x.note
    ∷ Value.integer x.audit_id
    ∷ []

unfoldable pub from_row : Row → Approval
unfolding as_int64 as_text
from_row r = record {
  id = as_int64 (column r 0);
  period_id = as_int64 (column r 1);
  employee_id = as_int64 (column r 2);
  from_state = as_text (column r 3);
  to_state = as_text (column r 4);
  acted_by_tid = text_or_empty (column r 5);
  acted_by_oid = text_or_empty (column r 6);
  acted_by_account = text_or_empty (column r 7);
  acted_at = as_int64 (column r 8);
  note = text_or_empty (column r 9);
  audit_id = as_int64 (column r 10);
}

-- The row of an `Approval` reads back as that `Approval`.
pub from_row-to_row : (x : Approval) → from_row (to_row x) ≡ x
unfolding from_row to_row
from_row-to_row x = rw (
  text_or_empty-opt_text x.acted_by_tid,
  text_or_empty-opt_text x.acted_by_oid,
  text_or_empty-opt_text x.acted_by_account,
  text_or_empty-opt_text x.note,
)
