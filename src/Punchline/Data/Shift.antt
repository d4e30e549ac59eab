-- ===== src/Punchline/Data/Shift.antt =====
-- modules/punchline/src/data.cpp: `Shift`, the row that the store keeps of it, and back.
use archivum.Base.{[], ◌∷◌, ◌≡◌, Bytes, Option}
use archivum.Base.Int.{ℤ}
use archivum.Engine.Types.{Value, Row}
use archivum.Punchline.Fields.{
  as_int64, as_text, opt_text, opt_ts, opt_id, opt_int, text_or_empty, int_or_zero, int_opt, column,
  int_opt-opt_int, int_or_zero-opt_id, int_or_zero-opt_ts, text_or_empty-opt_text,
}

pub record Shift : Type 0 where
  pub id : ℤ
  pub employee_id : ℤ
  pub device_id : ℤ
  pub in_entry_id : ℤ
  pub out_entry_id : ℤ
  pub local_day : ℤ
  pub period_id : ℤ
  pub in_time : ℤ
  pub out_time : ℤ
  pub duration_us : Option ℤ
  pub pay_code : Bytes
  pub state : Bytes

unfoldable pub to_row : Shift → Row
to_row x =
    Value.integer x.id
    ∷ Value.integer x.employee_id
    ∷ Value.integer x.device_id
    ∷ Value.integer x.in_entry_id
    ∷ opt_id x.out_entry_id
    ∷ Value.integer x.local_day
    ∷ opt_id x.period_id
    ∷ Value.timestamp x.in_time
    ∷ opt_ts x.out_time
    ∷ opt_int x.duration_us
    ∷ opt_text x.pay_code
    ∷ Value.text x.state
    ∷ []

unfoldable pub from_row : Row → Shift
unfolding as_int64 as_text
from_row r = record {
  id = as_int64 (column r 0);
  employee_id = as_int64 (column r 1);
  device_id = as_int64 (column r 2);
  in_entry_id = as_int64 (column r 3);
  out_entry_id = int_or_zero (column r 4);
  local_day = as_int64 (column r 5);
  period_id = int_or_zero (column r 6);
  in_time = as_int64 (column r 7);
  out_time = int_or_zero (column r 8);
  duration_us = int_opt (column r 9);
  pay_code = text_or_empty (column r 10);
  state = as_text (column r 11);
}

-- The row of a `Shift` reads back as that `Shift`.
pub from_row-to_row : (x : Shift) → from_row (to_row x) ≡ x
unfolding from_row to_row
from_row-to_row x = rw (
  int_or_zero-opt_id x.out_entry_id,
  int_or_zero-opt_id x.period_id,
  int_or_zero-opt_ts x.out_time,
  int_opt-opt_int x.duration_us,
  text_or_empty-opt_text x.pay_code,
)
