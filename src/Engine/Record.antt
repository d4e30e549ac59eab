-- ===== src/Engine/Record.antt =====
-- engine/src/engine/record.cpp: the order-preserving encoding of keys, and the encoding of rows.
-- Decoding goes by what is left of the input; `pos` is the length of what was taken off it.
pub mod BigEndian
pub mod KeyOrder
pub mod KeyRoundTrip
pub mod Rows
mod Examples
use archivum.Base.{
  ℕ, zero, suc, ◌+◌, ◌*◌, ◌/◌, ◌%◌, ◌^◌, ◌==◌, ltb, if◌then◌else◌, Bool, true, false, not, List, [],
  ◌∷◌, ◌++◌, Bytes, length, take, drop, concat, map, bit_xor,
}
use archivum.Base.Int.{ℤ, to_u64, to_i64}
use archivum.Status.{Result, ok, err, corrupt, require, ◌>>=◌, ◌>>◌}
use archivum.LittleEndian.{put_u32, put_u64, get_u32, get_u64}
use archivum.Engine.Types.{is_null, ColumnType, Value, Row, kind, bool_number}

-- The bytes `(u >> (8 * i)) & 0xFF` for `i` from `n - 1` down to 0.
unfoldable pub big_endian : ℕ → ℕ → Bytes
big_endian zero u = []
big_endian (suc i) u = (u / 2 ^ (8 * i) % 256) ∷ big_endian i u

abbrev pub sign_bit : ℕ
sign_bit = 2 ^ 63

unfoldable pub put_be64_flipped : ℤ → Bytes
put_be64_flipped v = big_endian 8 (bit_xor (to_u64 v) sign_bit)

-- The loop `u = (u << 8) | p[i]` on 64 bits.
unfoldable pub get_be64 : ℕ → Bytes → ℕ
get_be64 u [] = u
get_be64 u (b ∷ bs) = get_be64 (u * 256 % 2 ^ 64 + b) bs

unfoldable pub get_be64_flipped : Bytes → ℤ
get_be64_flipped p = to_i64 (bit_xor (get_be64 0 (take 8 p)) sign_bit)

unfoldable pub put_escaped : Bytes → Bytes
put_escaped [] = 0 ∷ 0 ∷ []
put_escaped (b ∷ bs) = let rest = put_escaped bs in if b == 0 then 0 ∷ 0xFF ∷ rest else b ∷ rest

abbrev pub prepend : ℕ → Result (Bytes × Bytes) → Result (Bytes × Bytes)
prepend b (ok (out, rest)) = ok (b ∷ out, rest)
prepend b (err e) = err e

-- The bytes up to the terminator, and what follows it.
unfoldable pub get_escaped : Bytes → Result (Bytes × Bytes)
get_escaped [] = err corrupt
get_escaped (b ∷ []) = err corrupt
get_escaped (b ∷ n ∷ rest) =
    let plain = prepend b (get_escaped (n ∷ rest)) in
    let zero_byte = prepend 0 (get_escaped rest) in
    if not (b == 0)
    then plain
    else if n == 0
    then ok ([], rest)
    else if n == 0xFF
    then zero_byte
    else err corrupt

-- What follows the tag of a value that is not null.
unfoldable pub key_payload : Value → Bytes
unfolding put_be64_flipped put_escaped
key_payload Value.null = []
key_payload (Value.integer i) = put_be64_flipped i
key_payload (Value.decimal i) = put_be64_flipped i
key_payload (Value.timestamp i) = put_be64_flipped i
key_payload (Value.boolean b) = bool_number b ∷ []
key_payload (Value.uuid u) = u
key_payload (Value.text t) = put_escaped t
key_payload (Value.blob b) = put_escaped b

unfoldable pub encode_key_value : Value → Bytes
encode_key_value v = if is_null v then 0 ∷ [] else 1 ∷ key_payload v

unfoldable pub encode_key : Row → Bytes
encode_key [] = []
encode_key (v ∷ vs) = encode_key_value v ++ encode_key vs

-- A fixed number of bytes of the input and the rest, or the error of an input that is too short.
unfoldable pub take_bytes : ℕ → Bytes → Result (Bytes × Bytes)
take_bytes n bs = if ltb (length bs) n then err corrupt else ok (take n bs, drop n bs)

-- The `switch` on the column's type, behind the tag.
unfoldable pub decode_payload : ColumnType → Bytes → Result (Value × Bytes)
decode_payload ColumnType.integer bs = do
  (p, rest) ← take_bytes 8 bs
  ok (Value.integer (get_be64_flipped p), rest)
decode_payload ColumnType.decimal bs = do
  (p, rest) ← take_bytes 8 bs
  ok (Value.decimal (get_be64_flipped p), rest)
decode_payload ColumnType.timestamp bs = do
  (p, rest) ← take_bytes 8 bs
  ok (Value.timestamp (get_be64_flipped p), rest)
decode_payload ColumnType.boolean [] = err corrupt
decode_payload ColumnType.boolean (b ∷ rest) = ok (Value.boolean (not (b == 0)), rest)
decode_payload ColumnType.uuid bs = do (p, rest) ← take_bytes 16 bs; ok (Value.uuid p, rest)
decode_payload ColumnType.text bs = do (raw, rest) ← get_escaped bs; ok (Value.text raw, rest)
decode_payload ColumnType.blob bs = do (raw, rest) ← get_escaped bs; ok (Value.blob raw, rest)

-- One round of the loop of `decode_key`.
unfoldable pub decode_key_value : ColumnType → Bytes → Result (Value × Bytes)
decode_key_value t [] = err corrupt
decode_key_value t (tag ∷ bs) =
    if tag == 0
    then ok (Value.null, bs)
    else if not (tag == 1)
    then err corrupt
    else decode_payload t bs

unfoldable pub decode_key : List ColumnType → Bytes → Result (Row × Bytes)
decode_key [] bs = ok ([], bs)
decode_key (t ∷ ts) bs = do
  (v, rest) ← decode_key_value t bs
  (vs, end) ← decode_key ts rest
  ok (v ∷ vs, end)
