-- ===== src/Punchline/Data/Employee.antt =====
-- modules/punchline/src/data.cpp: `Employee`, the row that the store keeps of it, and back.
use archivum.Base.{[], ◌∷◌, ◌≡◌, Bytes, Bool}
use archivum.Base.Int.{ℤ}
use archivum.Engine.Types.{Value, Row}
use archivum.Punchline.Fields.{
  as_int64, as_bool, as_text, opt_text, text_or_empty, column, text_or_empty-opt_text,
}

pub record Employee : Type 0 where
  pub id : ℤ
  pub employee_number : Bytes
  pub display_name : Bytes
  pub email : Bytes
  pub tid : Bytes
  pub oid : Bytes
  pub pay_group : Bytes
  pub site_zone : Bytes
  pub active : Bool
  pub created_at : ℤ
  pub updated_at : ℤ
  pub company : Bytes
  pub cost_center : Bytes

unfoldable pub to_row : Employee → Row
to_row x =
    Value.integer x.id
    ∷ Value.text x.employee_number
    ∷ Value.text x.display_name
    ∷ opt_text x.email
    ∷ opt_text x.tid
    ∷ opt_text x.oid
    ∷ Value.boolean x.active
    ∷ opt_text x.pay_group
    ∷ Value.text x.site_zone
    ∷ Value.timestamp x.created_at
    ∷ Value.timestamp x.updated_at
    ∷ opt_text x.company
    ∷ opt_text x.cost_center
    ∷ []

unfoldable pub from_row : Row → Employee
unfolding as_int64 as_bool as_text
from_row r = record {
  id = as_int64 (column r 0);
  employee_number = as_text (column r 1);
  display_name = as_text (column r 2);
  email = text_or_empty (column r 3);
  tid = text_or_empty (column r 4);
  oid = text_or_empty (column r 5);
  pay_group = text_or_empty (column r 7);
  site_zone = as_text (column r 8);
  active = as_bool (column r 6);
  created_at = as_int64 (column r 9);
  updated_at = as_int64 (column r 10);
  company = text_or_empty (column r 11);
  cost_center = text_or_empty (column r 12);
}

-- The row of an `Employee` reads back as that `Employee`.
pub from_row-to_row : (x : Employee) → from_row (to_row x) ≡ x
unfolding from_row to_row
from_row-to_row x = rw (
  text_or_empty-opt_text x.email,
  text_or_empty-opt_text x.tid,
  text_or_empty-opt_text x.oid,
  text_or_empty-opt_text x.pay_group,
  text_or_empty-opt_text x.company,
  text_or_empty-opt_text x.cost_center,
)
