-- ===== src/Punchline/Data/Device.antt =====
-- modules/punchline/src/data.cpp: `Device`, the row that the store keeps of it, and back.
use archivum.Base.{[], ◌∷◌, ◌≡◌, Bytes, Option, if◌then◌else◌, zero, suc, refl, arith}
use archivum.Base.Int.{ℤ, pos, negsuc, ltb_ℤ, ◌≤ℤ◌}
use archivum.Engine.Types.{Value, Row, is_null}
use archivum.Punchline.Fields.{
  as_int64, as_text, as_blob, as_uuid, opt_text, opt_ts, opt_uuid, text_or_empty, int_or_zero,
  uuid_opt, column, int_or_zero-opt_ts, text_or_empty-opt_text, uuid_opt-opt_uuid,
}

pub record Device : Type 0 where
  pub id : ℤ
  pub device_uuid : Bytes
  pub name : Bytes
  pub employee_id : ℤ
  pub credential_hash : Bytes
  pub enrolled_at : ℤ
  pub enrolled_by : Bytes
  pub revoked_at : ℤ
  pub revoked_reason : Bytes
  pub last_seen_at : ℤ
  pub last_acked_sequence : ℤ
  pub last_journal_id : Option Bytes
  pub employee_id_rejections : ℤ

unfoldable pub to_row : Device → Row
to_row x =
    Value.integer x.id
    ∷ Value.uuid x.device_uuid
    ∷ Value.text x.name
    ∷ Value.integer x.employee_id
    ∷ Value.blob x.credential_hash
    ∷ Value.timestamp x.enrolled_at
    ∷ Value.text x.enrolled_by
    ∷ opt_ts x.revoked_at
    ∷ opt_text x.revoked_reason
    ∷ opt_ts x.last_seen_at
    ∷ (if ltb_ℤ x.last_acked_sequence (pos 0)
        then Value.null
        else Value.integer x.last_acked_sequence)
    ∷ opt_uuid x.last_journal_id
    ∷ Value.integer x.employee_id_rejections
    ∷ []

unfoldable pub from_row : Row → Device
unfolding as_int64 as_text as_blob as_uuid
from_row r = record {
  id = as_int64 (column r 0);
  device_uuid = as_uuid (column r 1);
  name = as_text (column r 2);
  employee_id = as_int64 (column r 3);
  credential_hash = as_blob (column r 4);
  enrolled_at = as_int64 (column r 5);
  enrolled_by = as_text (column r 6);
  revoked_at = int_or_zero (column r 7);
  revoked_reason = text_or_empty (column r 8);
  last_seen_at = int_or_zero (column r 9);
  last_acked_sequence = if is_null (column r 10) then negsuc 0 else as_int64 (column r 10);
  last_journal_id = uuid_opt (column r 11);
  employee_id_rejections = as_int64 (column r 12);
}

acked :
    (v : ℤ)
    → negsuc 0 ≤ℤ v
    → let w = if ltb_ℤ v (pos 0) then Value.null else Value.integer v in
      (if is_null w then negsuc 0 else as_int64 w) ≡ v
unfolding as_int64
acked (pos n) h = ground arith
acked (negsuc zero) h = refl
acked (negsuc (suc n)) h = absurd (omega arith)

-- The row of a `Device` reads back as that `Device`, where the last acknowledged sequence is at least
-- -1, which stands for none.
pub from_row-to_row_device :
    (x : Device) → negsuc 0 ≤ℤ x.last_acked_sequence → from_row (to_row x) ≡ x
unfolding from_row to_row
from_row-to_row_device x h = rw (
  int_or_zero-opt_ts x.revoked_at,
  text_or_empty-opt_text x.revoked_reason,
  int_or_zero-opt_ts x.last_seen_at,
  uuid_opt-opt_uuid x.last_journal_id,
  acked x.last_acked_sequence h,
)
