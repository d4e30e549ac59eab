-- ===== src/Punchline/Data/TimeEntry.antt =====
-- modules/punchline/src/data.cpp: `TimeEntry`, the row that the store keeps of it, and back.
use archivum.Base.{[], ◌∷◌, ◌≡◌, Bytes, Option}
use archivum.Base.Int.{ℤ}
use archivum.Engine.Types.{Value, Row}
use archivum.Punchline.Fields.{
  as_int64, as_text, as_uuid, opt_text, opt_id, opt_int, opt_uuid, text_or_empty, int_or_zero,
  int_opt, uuid_opt, column, int_opt-opt_int, int_or_zero-opt_id, text_or_empty-opt_text,
  uuid_opt-opt_uuid,
}

pub record TimeEntry : Type 0 where
  pub id : ℤ
  pub entry_uuid : Bytes
  pub employee_id : ℤ
  pub device_id : ℤ
  pub journal_id : Option Bytes
  pub journal_sequence : ℤ
  pub kind : Bytes
  pub device_time : ℤ
  pub local_time : Bytes
  pub site_zone : Bytes
  pub tzdb_version : Bytes
  pub receipt_time : ℤ
  pub attestation : Bytes
  pub clock_divergence_us : Option ℤ
  pub period_id : ℤ
  pub state : Bytes
  pub pay_code : Bytes
  pub approval_audit_id : ℤ
  pub correction_of : ℤ
  pub correction_reason : Bytes
  pub created_at : ℤ
  pub note : Bytes
  pub superseded_by : ℤ

unfoldable pub to_row : TimeEntry → Row
to_row x =
    Value.integer x.id
    ∷ Value.uuid x.entry_uuid
    ∷ Value.integer x.employee_id
    ∷ Value.integer x.device_id
    ∷ opt_uuid x.journal_id
    ∷ Value.integer x.journal_sequence
    ∷ Value.text x.kind
    ∷ Value.timestamp x.device_time
    ∷ Value.text x.local_time
    ∷ Value.text x.site_zone
    ∷ Value.text x.tzdb_version
    ∷ Value.timestamp x.receipt_time
    ∷ Value.text x.attestation
    ∷ opt_int x.clock_divergence_us
    ∷ opt_id x.period_id
    ∷ Value.text x.state
    ∷ opt_text x.pay_code
    ∷ opt_id x.approval_audit_id
    ∷ opt_id x.correction_of
    ∷ opt_text x.correction_reason
    ∷ Value.timestamp x.created_at
    ∷ opt_text x.note
    ∷ opt_id x.superseded_by
    ∷ []

unfoldable pub from_row : Row → TimeEntry
unfolding as_int64 as_text as_uuid
from_row r = record {
  id = as_int64 (column r 0);
  entry_uuid = as_uuid (column r 1);
  employee_id = as_int64 (column r 2);
  device_id = as_int64 (column r 3);
  journal_id = uuid_opt (column r 4);
  journal_sequence = as_int64 (column r 5);
  kind = as_text (column r 6);
  device_time = as_int64 (column r 7);
  local_time = as_text (column r 8);
  site_zone = as_text (column r 9);
  tzdb_version = as_text (column r 10);
  receipt_time = as_int64 (column r 11);
  attestation = as_text (column r 12);
  clock_divergence_us = int_opt (column r 13);
  period_id = int_or_zero (column r 14);
  state = as_text (column r 15);
  pay_code = text_or_empty (column r 16);
  approval_audit_id = int_or_zero (column r 17);
  correction_of = int_or_zero (column r 18);
  correction_reason = text_or_empty (column r 19);
  created_at = as_int64 (column r 20);
  note = text_or_empty (column r 21);
  superseded_by = int_or_zero (column r 22);
}

-- The row of a `TimeEntry` reads back as that `TimeEntry`.
pub from_row-to_row : (x : TimeEntry) → from_row (to_row x) ≡ x
unfolding from_row to_row
from_row-to_row x = rw (
  uuid_opt-opt_uuid x.journal_id,
  int_opt-opt_int x.clock_divergence_us,
  int_or_zero-opt_id x.period_id,
  text_or_empty-opt_text x.pay_code,
  int_or_zero-opt_id x.approval_audit_id,
  int_or_zero-opt_id x.correction_of,
  text_or_empty-opt_text x.correction_reason,
  text_or_empty-opt_text x.note,
  int_or_zero-opt_id x.superseded_by,
)
