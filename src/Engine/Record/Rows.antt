-- ===== src/Engine/Record/Rows.antt =====
-- `encode_row` and `decode_row` of engine/src/engine/record.cpp.
pub mod RoundTrip
use archivum.Base.{
  ℕ, zero, suc, ◌+◌, ◌*◌, ◌/◌, ◌%◌, ◌==◌, ltb, if◌then◌else◌, Bool, true, false, not, List, [], ◌∷◌,
  ◌++◌, Bytes, length,
}
use archivum.Base.Int.{ℤ, to_u64, to_i64}
use archivum.Status.{Result, ok, err, corrupt, require, ◌>>=◌, ◌>>◌}
use archivum.LittleEndian.{put_u32, put_u64, get_u32, get_u64}
use archivum.Engine.Types.{Value, Row, kind, bool_number}
use archivum.Engine.Record.{take_bytes}

-- What follows a value's kind.
unfoldable pub row_payload : Value → Bytes
row_payload Value.null = []
row_payload (Value.integer i) = put_u64 (to_u64 i)
row_payload (Value.decimal i) = put_u64 (to_u64 i)
row_payload (Value.timestamp i) = put_u64 (to_u64 i)
row_payload (Value.boolean b) = bool_number b ∷ []
row_payload (Value.uuid u) = u
row_payload (Value.text t) = put_u32 (length t) ++ t
row_payload (Value.blob b) = put_u32 (length b) ++ b

unfoldable pub encode_values : Row → Bytes
encode_values [] = []
encode_values (v ∷ vs) = kind v ∷ (row_payload v ++ encode_values vs)

unfoldable pub encode_row : Row → Bytes
encode_row row = (length row % 256) ∷ (length row / 256 % 256) ∷ encode_values row

-- The integers, which three kinds share.
unfoldable pub decode_int : (ℤ → Value) → Bytes → Result (Value × Bytes)
decode_int make bs = do (p, rest) ← take_bytes 8 bs; ok (make (to_i64 (get_u64 p)), rest)

unfoldable pub decode_bool : Bytes → Result (Value × Bytes)
decode_bool [] = err corrupt
decode_bool (b ∷ rest) = ok (Value.boolean (not (b == 0)), rest)

-- A length and as many bytes, which two kinds share.
unfoldable pub decode_bytes : (Bytes → Value) → Bytes → Result (Value × Bytes)
decode_bytes make bs = do
  (size, behind) ← take_bytes 4 bs
  (p, rest) ← take_bytes (get_u32 size) behind
  ok (make p, rest)

unfoldable pub decode_uuid : Bytes → Result (Value × Bytes)
decode_uuid bs = do (p, rest) ← take_bytes 16 bs; ok (Value.uuid p, rest)

-- The `switch` on the kind read.
unfoldable pub decode_kind : ℕ → Bytes → Result (Value × Bytes)
decode_kind zero bs = ok (Value.null, bs)
decode_kind (suc zero) bs = decode_int Value.integer bs
decode_kind (suc (suc zero)) bs = decode_int Value.decimal bs
decode_kind (suc (suc (suc zero))) bs = decode_bytes Value.text bs
decode_kind (suc (suc (suc (suc zero)))) bs = decode_bytes Value.blob bs
decode_kind (suc (suc (suc (suc (suc zero))))) bs = decode_int Value.timestamp bs
decode_kind (suc (suc (suc (suc (suc (suc zero)))))) bs = decode_bool bs
decode_kind (suc (suc (suc (suc (suc (suc (suc zero))))))) bs = decode_uuid bs
decode_kind k bs = err corrupt

unfoldable pub decode_value : Bytes → Result (Value × Bytes)
unfolding decode_kind
decode_value [] = err corrupt
decode_value (k ∷ bs) = decode_kind k bs

unfoldable pub decode_values : ℕ → Bytes → Result (Row × Bytes)
decode_values zero bs = ok ([], bs)
decode_values (suc n) bs = do
  (v, rest) ← decode_value bs
  (vs, end) ← decode_values n rest
  ok (v ∷ vs, end)

unfoldable pub no_trailing : Row × Bytes → Result Row
no_trailing (row, []) = ok row
no_trailing (row, b ∷ bs) = err corrupt

unfoldable pub decode_row : Bytes → Result Row
decode_row (low ∷ high ∷ bs) = decode_values (low + high * 256) bs >>= no_trailing
decode_row bs = err corrupt
