-- ===== src/Punchline/Data/PayPeriod.antt =====
-- modules/punchline/src/data.cpp: `PayPeriod`, the row that the store keeps of it, and back.
use archivum.Base.{[], ◌∷◌, ◌≡◌, Bytes}
use archivum.Base.Int.{ℤ}
use archivum.Engine.Types.{Value, Row}
use archivum.Punchline.Fields.{as_int64, as_text, opt_ts, int_or_zero, column, int_or_zero-opt_ts}

pub record PayPeriod : Type 0 where
  pub id : ℤ
  pub start_day : ℤ
  pub end_day : ℤ
  pub site_zone : Bytes
  pub tzdb_version : Bytes
  pub state : Bytes
  pub submit_by : ℤ
  pub approve_by : ℤ
  pub release_at : ℤ

unfoldable pub to_row : PayPeriod → Row
to_row x =
    Value.integer x.id
    ∷ Value.integer x.start_day
    ∷ Value.integer x.end_day
    ∷ Value.text x.site_zone
    ∷ Value.text x.tzdb_version
    ∷ Value.text x.state
    ∷ opt_ts x.submit_by
    ∷ opt_ts x.approve_by
    ∷ opt_ts x.release_at
    ∷ []

unfoldable pub from_row : Row → PayPeriod
unfolding as_int64 as_text
from_row r = record {
  id = as_int64 (column r 0);
  start_day = as_int64 (column r 1);
  end_day = as_int64 (column r 2);
  site_zone = as_text (column r 3);
  tzdb_version = as_text (column r 4);
  state = as_text (column r 5);
  submit_by = int_or_zero (column r 6);
  approve_by = int_or_zero (column r 7);
  release_at = int_or_zero (column r 8);
}

-- The row of a `PayPeriod` reads back as that `PayPeriod`.
pub from_row-to_row : (x : PayPeriod) → from_row (to_row x) ≡ x
unfolding from_row to_row
from_row-to_row x = rw (
  int_or_zero-opt_ts x.submit_by,
  int_or_zero-opt_ts x.approve_by,
  int_or_zero-opt_ts x.release_at,
)
