-- ===== src/Engine/Record/KeyRoundTrip.antt =====
-- Encoded keys decode to the values that they were made of.
use archivum.Base.{
  ℕ, ◌≡◌, ◌≢◌, refl, sym, ap, ◌∙◌, arith, ltb, true, false, ◌==◌, List, [], ◌∷◌, ◌++◌, Bytes,
  length, take_exact, drop_exact, length-append, Bool-cases, ==_iff, inl, inr,
}
use mathlib.Core.List.{append_assoc}
use archivum.Base.Int.{ℤ, IsInt64}
use archivum.Status.{ok}
use archivum.Engine.Types.{ColumnType, Value, Row}
use archivum.Engine.Record.{
  put_be64_flipped, put_escaped, get_escaped, prepend, key_payload, encode_key_value, encode_key,
  take_bytes, decode_payload, decode_key_value, decode_key,
}
use archivum.Engine.Record.BigEndian.{get-put_be64_flipped, length-put_be64_flipped}
use archivum.Engine.Record.KeyOrder.{IsColumnValue, IsKey}

pub take_bytes-append :
    (n : ℕ) (xs rest : Bytes) → length xs ≡ n → take_bytes n (xs ++ rest) ≡ ok (xs, rest)
unfolding take_bytes
take_bytes-append n xs rest e = rw (enough, take_exact xs rest e, drop_exact xs rest e)
  where
    enough : ltb (length (xs ++ rest)) n ≡ false
    enough = ground (arith, length-append xs rest)

get_escaped_plain :
    (b : ℕ) (bs : Bytes) → (b == 0) ≡ false → get_escaped (b ∷ bs) ≡ prepend b (get_escaped bs)
unfolding get_escaped
get_escaped_plain b [] h = refl
get_escaped_plain b (n ∷ rest) h = rw h

get_escaped_zero : (bs : Bytes) → get_escaped (0 ∷ 0xFF ∷ bs) ≡ prepend 0 (get_escaped bs)
unfolding get_escaped
get_escaped_zero bs = refl

-- An escaped text or blob reads back, whatever follows it.
pub get-put_escaped : (bs rest : Bytes) → get_escaped (put_escaped bs ++ rest) ≡ ok (bs, rest)
unfolding put_escaped
get-put_escaped [] rest = unfold get_escaped in refl
get-put_escaped (b ∷ bs) rest = elim (Bool-cases (b == 0)) [
  | inl z ↦ rw z (
      get_escaped_zero (put_escaped bs ++ rest)
      ∙ ap (prepend 0) (get-put_escaped bs rest)
      ∙ ap (λ x. ok (x ∷ bs, rest)) (sym ((==_iff b 0).0 z)))
  | inr nz ↦ rw nz (get_escaped_plain b _ nz ∙ ap (prepend b) (get-put_escaped bs rest))
]

decode_integer :
    (v : ℤ) (rest : Bytes)
    → IsInt64 v
    → take_bytes 8 (put_be64_flipped v ++ rest) ≡ ok (put_be64_flipped v, rest)
decode_integer v rest h = take_bytes-append 8 (put_be64_flipped v) rest (length-put_be64_flipped v)

decode-key_payload :
    (t : ColumnType) (v : Value) (rest : Bytes)
    → IsColumnValue t v
    → v ≢ Value.null
    → decode_payload t (key_payload v ++ rest) ≡ ok (v, rest)
unfolding decode_payload key_payload
decode-key_payload t Value.null rest h n = absurd (n refl)
decode-key_payload ColumnType.integer (Value.integer i) rest h n =
    rw (decode_integer i rest h, get-put_be64_flipped i h)
decode-key_payload ColumnType.decimal (Value.decimal i) rest h n =
    rw (decode_integer i rest h, get-put_be64_flipped i h)
decode-key_payload ColumnType.timestamp (Value.timestamp i) rest h n =
    rw (decode_integer i rest h, get-put_be64_flipped i h)
decode-key_payload ColumnType.boolean (Value.boolean true) rest h n = refl
decode-key_payload ColumnType.boolean (Value.boolean false) rest h n = refl
decode-key_payload ColumnType.uuid (Value.uuid u) rest h n = rw (take_bytes-append 16 u rest h)
decode-key_payload ColumnType.text (Value.text s) rest h n = rw (get-put_escaped s rest)
decode-key_payload ColumnType.blob (Value.blob b) rest h n = rw (get-put_escaped b rest)
decode-key_payload t v rest h n = ground arith

decode-encode_key_value :
    (t : ColumnType) (v : Value) (rest : Bytes)
    → IsColumnValue t v
    → decode_key_value t (encode_key_value v ++ rest) ≡ ok (v, rest)
unfolding decode_key_value encode_key_value
decode-encode_key_value t Value.null rest h = refl
decode-encode_key_value t v rest h = decode-key_payload t v rest h (λ e. cc)

-- A key decodes under the types of its columns to the row that it was made of, and leaves exactly what
-- follows it.
pub decode-encode_key :
    (ts : List ColumnType) (vs : Row) (rest : Bytes)
    → IsKey ts vs
    → decode_key ts (encode_key vs ++ rest) ≡ ok (vs, rest)
unfolding decode_key encode_key
decode-encode_key [] [] rest h = refl
decode-encode_key (t ∷ ts) (v ∷ vs) rest h = rw (
  append_assoc (encode_key_value v) (encode_key vs) rest,
  decode-encode_key_value t v (encode_key vs ++ rest) h.0,
  decode-encode_key ts vs rest h.1,
)
decode-encode_key ts vs rest h = ground arith
