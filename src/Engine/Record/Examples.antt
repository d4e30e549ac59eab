-- ===== src/Engine/Record/Examples.antt =====
-- The encodings' theorems at concrete rows, and what keys and rows look like.
use Prim.Native.Nat.{Ordering}
use archivum.Base.{◌≡◌, refl, arith, true, [], ◌∷◌, ◌++◌, List}
use archivum.Base.Int.{pos, negsuc, to_u64}
use archivum.Status.{ok}
use archivum.LittleEndian.{put_u32}
use archivum.Engine.Types.{ColumnType, Value, Row, compare_values, compare_bytes, kind}
use archivum.Engine.Record.{big_endian, encode_key, encode_key_value, key_payload, decode_key}
use archivum.Engine.Record.KeyOrder.{compare_rows, encode_key-preserves_order}
use archivum.Engine.Record.KeyRoundTrip.{decode-encode_key}
use archivum.Engine.Record.Rows.{encode_row, decode_row, encode_values, row_payload}
use archivum.Engine.Record.Rows.RoundTrip.{decode-encode_row}

abbrev columns : List ColumnType
columns = ColumnType.text ∷ ColumnType.integer ∷ []

-- A text with a zero byte inside, and a negative number.
abbrev lower : Row
lower = Value.text (0x61 ∷ 0 ∷ []) ∷ Value.integer (negsuc 0) ∷ []

abbrev upper : Row
upper = Value.text (0x61 ∷ 0 ∷ []) ∷ Value.integer (pos 7) ∷ []

encode_key_bytes :
    encode_key lower
    ≡ 1 ∷ 0x61 ∷ 0 ∷ 0xFF ∷ 0 ∷ 0 ∷ 1 ∷ 0x7F ∷ 0xFF ∷ 0xFF ∷ 0xFF ∷ 0xFF ∷ 0xFF ∷ 0xFF ∷ 0xFF ∷ []
unfolding encode_key encode_key_value key_payload big_endian to_u64
encode_key_bytes = refl

encode_key-preserves_order_example :
    compare_bytes (encode_key lower) (encode_key upper) ≡ compare_rows lower upper
encode_key-preserves_order_example =
    encode_key-preserves_order columns lower upper (omega arith) (omega arith)

lower_is_lower : compare_rows lower upper ≡ Ordering.lt
unfolding compare_values
lower_is_lower = refl

decode-encode_key_example : decode_key columns (encode_key lower ++ 5 ∷ []) ≡ ok (lower, 5 ∷ [])
decode-encode_key_example = decode-encode_key columns lower (5 ∷ []) (omega arith)

encode_row_bytes :
    encode_row (Value.null ∷ Value.boolean true ∷ Value.blob (9 ∷ []) ∷ [])
    ≡ 3 ∷ 0 ∷ 0 ∷ 6 ∷ 1 ∷ 4 ∷ 1 ∷ 0 ∷ 0 ∷ 0 ∷ 9 ∷ []
unfolding encode_row encode_values row_payload kind put_u32
encode_row_bytes = refl

decode-encode_row_example : decode_row (encode_row lower) ≡ ok lower
decode-encode_row_example = decode-encode_row lower (omega arith) (omega arith)
