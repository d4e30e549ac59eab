-- ===== src/Punchline/Data/SyncBatch.antt =====
-- modules/punchline/src/data.cpp: `SyncBatch`, the row that the store keeps of it, and back.
use archivum.Base.{[], ◌∷◌, ◌≡◌, Bytes, Option}
use archivum.Base.Int.{ℤ}
use archivum.Engine.Types.{Value, Row}
use archivum.Punchline.Fields.{
  as_int64, as_uuid, opt_ts, opt_int, opt_uuid, int_or_zero, int_opt, uuid_opt, column,
  int_opt-opt_int, int_or_zero-opt_ts, uuid_opt-opt_uuid,
}

pub record SyncBatch : Type 0 where
  pub id : ℤ
  pub batch_uuid : Bytes
  pub device_id : ℤ
  pub received_at : ℤ
  pub first_sequence : ℤ
  pub last_sequence : ℤ
  pub accepted : ℤ
  pub rejected : ℤ
  pub client_time_us : ℤ
  pub clock_divergence_us : Option ℤ
  pub journal_id : Option Bytes

unfoldable pub to_row : SyncBatch → Row
to_row x =
    Value.integer x.id
    ∷ Value.uuid x.batch_uuid
    ∷ Value.integer x.device_id
    ∷ Value.timestamp x.received_at
    ∷ Value.integer x.first_sequence
    ∷ Value.integer x.last_sequence
    ∷ Value.integer x.accepted
    ∷ Value.integer x.rejected
    ∷ opt_ts x.client_time_us
    ∷ opt_int x.clock_divergence_us
    ∷ opt_uuid x.journal_id
    ∷ []

unfoldable pub from_row : Row → SyncBatch
unfolding as_int64 as_uuid
from_row r = record {
  id = as_int64 (column r 0);
  batch_uuid = as_uuid (column r 1);
  device_id = as_int64 (column r 2);
  received_at = as_int64 (column r 3);
  first_sequence = as_int64 (column r 4);
  last_sequence = as_int64 (column r 5);
  accepted = as_int64 (column r 6);
  rejected = as_int64 (column r 7);
  client_time_us = int_or_zero (column r 8);
  clock_divergence_us = int_opt (column r 9);
  journal_id = uuid_opt (column r 10);
}

-- The row of a `SyncBatch` reads back as that `SyncBatch`.
pub from_row-to_row : (x : SyncBatch) → from_row (to_row x) ≡ x
unfolding from_row to_row
from_row-to_row x = rw (
  int_or_zero-opt_ts x.client_time_us,
  int_opt-opt_int x.clock_divergence_us,
  uuid_opt-opt_uuid x.journal_id,
)
