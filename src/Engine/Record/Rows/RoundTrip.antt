-- ===== src/Engine/Record/Rows/RoundTrip.antt =====
-- Encoded rows decode to the values that they were made of.
use archivum.Base.{
  ◌^◌, ◌<◌, ◌≡◌, refl, sym, ap, ◌∙◌, arith, true, false, [], ◌∷◌, ◌++◌, Bytes, length, All,
}
use mathlib.Core.List.{append_assoc, append-nil}
use archivum.Base.Int.{ℤ, IsInt64, to_u64, to_i64, to_i64-to_u64, to_u64-lt}
use archivum.Status.{ok, ◌>>=◌}
use archivum.LittleEndian.{put_u32, put_u64, get_u32, get_u64}
use archivum.LittleEndian.Laws.{get_u32-put_u32, get_u64-put_u64, length-put_u32, length-put_u64}
use archivum.Engine.Types.{Value, Row, kind}
use archivum.Engine.Record.KeyRoundTrip.{take_bytes-append}
use archivum.Engine.Record.Rows.{
  row_payload, encode_values, encode_row, decode_int, decode_bool, decode_bytes, decode_uuid,
  decode_kind, decode_value, decode_values, no_trailing, decode_row,
}

-- The ranges of the C++ types, and of the length that is written as 32 bits.
abbrev pub IsStored : Value → Type 0
IsStored Value.null = Unit
IsStored (Value.integer i) = IsInt64 i
IsStored (Value.decimal i) = IsInt64 i
IsStored (Value.timestamp i) = IsInt64 i
IsStored (Value.boolean b) = Unit
IsStored (Value.uuid u) = length u ≡ 16
IsStored (Value.text t) = length t < 2 ^ 32
IsStored (Value.blob b) = length b < 2 ^ 32

decode-int :
    (make : ℤ → Value) (i : ℤ) (rest : Bytes)
    → IsInt64 i
    → decode_int make (put_u64 (to_u64 i) ++ rest) ≡ ok (make i, rest)
unfolding decode_int
decode-int make i rest h =
    rw (take_bytes-append 8 (put_u64 (to_u64 i)) rest (length-put_u64 (to_u64 i)))
      (ap (λ t. ok (make t, rest)) (ap to_i64 whole ∙ to_i64-to_u64 i h))
  where
    whole : get_u64 (put_u64 (to_u64 i)) ≡ to_u64 i
    whole =
        ap get_u64 (sym (append-nil (put_u64 (to_u64 i))))
        ∙ get_u64-put_u64 (to_u64 i) [] (to_u64-lt i)

decode-bytes :
    (make : Bytes → Value) (bs rest : Bytes)
    → length bs < 2 ^ 32
    → decode_bytes make ((put_u32 (length bs) ++ bs) ++ rest) ≡ ok (make bs, rest)
unfolding decode_bytes
decode-bytes make bs rest h = rw (
  append_assoc (put_u32 (length bs)) bs rest,
  take_bytes-append 4 (put_u32 (length bs)) (bs ++ rest) (length-put_u32 (length bs)),
  whole,
  take_bytes-append (length bs) bs rest refl,
)
  where
    whole : get_u32 (put_u32 (length bs)) ≡ length bs
    whole = ap get_u32 (sym (append-nil (put_u32 (length bs)))) ∙ get_u32-put_u32 (length bs) [] h

decode-payload :
    (v : Value) (rest : Bytes)
    → IsStored v
    → decode_kind (kind v) (row_payload v ++ rest) ≡ ok (v, rest)
unfolding decode_kind kind row_payload
decode-payload Value.null rest h = refl
decode-payload (Value.integer i) rest h = decode-int Value.integer i rest h
decode-payload (Value.decimal i) rest h = decode-int Value.decimal i rest h
decode-payload (Value.timestamp i) rest h = decode-int Value.timestamp i rest h
decode-payload (Value.boolean true) rest h = unfold decode_bool in refl
decode-payload (Value.boolean false) rest h = unfold decode_bool in refl
decode-payload (Value.uuid u) rest h = unfold decode_uuid in rw (take_bytes-append 16 u rest h)
decode-payload (Value.text t) rest h = decode-bytes Value.text t rest h
decode-payload (Value.blob b) rest h = decode-bytes Value.blob b rest h

decode-encode_values :
    (row : Row) (rest : Bytes)
    → All IsStored row
    → decode_values (length row) (encode_values row ++ rest) ≡ ok (row, rest)
unfolding decode_values encode_values
decode-encode_values [] rest h = refl
decode-encode_values (v ∷ vs) rest h = rw (first, decode-encode_values vs rest h.1)
  where
    first :
        decode_value (kind v ∷ ((row_payload v ++ encode_values vs) ++ rest))
        ≡ ok (v, encode_values vs ++ rest)
    first =
        unfold decode_value in
        ap (decode_kind (kind v)) (append_assoc (row_payload v) (encode_values vs) rest)
        ∙ decode-payload v (encode_values vs ++ rest) h.0

-- A row of fewer than 65536 values decodes to itself, and nothing is left over.
pub decode-encode_row :
    (row : Row) → length row < 2 ^ 16 → All IsStored row → decode_row (encode_row row) ≡ ok row
unfolding decode_row encode_row
decode-encode_row row short h =
    ap (λ n. decode_values n (encode_values row) >>= no_trailing) (omega arith)
    ∙ ap (λ bs. decode_values (length row) bs >>= no_trailing)
        (sym (append-nil (encode_values row)))
    ∙ ap (λ r. r >>= no_trailing) (decode-encode_values row [] h)
    ∙ unfold no_trailing in refl
