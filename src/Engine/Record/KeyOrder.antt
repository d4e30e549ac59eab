-- ===== src/Engine/Record/KeyOrder.antt =====
-- The order of encoded keys, which is the order of the b-tree, is the order of the values.
use Prim.Native.Nat.{Ordering, compare}
use archivum.Base.{suc, ◌≡◌, refl, sym, ap, ◌∙◌, arith, List, [], ◌∷◌, ◌++◌, Bytes, length}
use archivum.Base.Int.{IsInt64}
use archivum.Engine.Types.{ColumnType, Value, Row, and_then, memcmp, compare_bytes, compare_values}
use archivum.Engine.Record.{put_escaped, key_payload, encode_key_value, encode_key}
use archivum.Engine.Record.BigEndian.{lex, and_then_assoc, lex-put_be64_flipped}

-- Values that a column of a type may hold, with the ranges of their C++ types.
abbrev pub IsColumnValue : ColumnType → Value → Type 0
IsColumnValue t Value.null = Unit
IsColumnValue ColumnType.integer (Value.integer i) = IsInt64 i
IsColumnValue ColumnType.decimal (Value.decimal i) = IsInt64 i
IsColumnValue ColumnType.timestamp (Value.timestamp i) = IsInt64 i
IsColumnValue ColumnType.boolean (Value.boolean b) = Unit
IsColumnValue ColumnType.uuid (Value.uuid u) = length u ≡ 16
IsColumnValue ColumnType.text (Value.text s) = Unit
IsColumnValue ColumnType.blob (Value.blob b) = Unit
IsColumnValue t v = ⊥

abbrev pub IsKey : List ColumnType → Row → Type 0
IsKey [] [] = Unit
IsKey (t ∷ ts) (v ∷ vs) = IsColumnValue t v × IsKey ts vs
IsKey ts vs = ⊥

-- Column by column.
abbrev pub compare_rows : Row → Row → Ordering
compare_rows [] [] = Ordering.eq
compare_rows [] (w ∷ ws) = Ordering.lt
compare_rows (v ∷ vs) [] = Ordering.gt
compare_rows (v ∷ vs) (w ∷ ws) = and_then (compare_values v w) (compare_rows vs ws)

lex-eq : (xs ys : Bytes) → compare_bytes xs ys ≡ lex xs ys
unfolding compare_bytes
lex-eq [] [] = refl
lex-eq [] (y ∷ ys) = ground arith
lex-eq (x ∷ xs) [] = ground arith
lex-eq (x ∷ xs) (y ∷ ys) =
    and_then_assoc (compare x y) (memcmp xs ys) (compare (suc (length xs)) (suc (length ys)))
    ∙ ap (and_then (compare x y)) (ap (and_then (memcmp xs ys)) (ground arith) ∙ lex-eq xs ys)

lex-memcmp :
    (xs ys r s : Bytes)
    → length xs ≡ length ys
    → lex (xs ++ r) (ys ++ s) ≡ and_then (memcmp xs ys) (lex r s)
unfolding memcmp
lex-memcmp [] [] r s h = refl
lex-memcmp [] (y ∷ ys) r s h = absurd (omega arith)
lex-memcmp (x ∷ xs) [] r s h = absurd (omega arith)
lex-memcmp (x ∷ xs) (y ∷ ys) r s h =
    ap (and_then (compare x y)) (lex-memcmp xs ys r s (omega arith))
    ∙ sym (and_then_assoc (compare x y) (memcmp xs ys) (lex r s))

-- The escape of a zero byte stands above the terminator and below every other byte.
lex-put_escaped :
    (xs ys r s : Bytes)
    → lex (put_escaped xs ++ r) (put_escaped ys ++ s) ≡ and_then (lex xs ys) (lex r s)
unfolding put_escaped
lex-put_escaped [] [] r s = refl
lex-put_escaped [] (y ∷ ys) r s = ground arith
lex-put_escaped (x ∷ xs) [] r s = ground arith
lex-put_escaped (x ∷ xs) (y ∷ ys) r s = ground (arith, lex-put_escaped xs ys r s)

lex-key_text :
    (xs ys r s : Bytes)
    → lex (put_escaped xs ++ r) (put_escaped ys ++ s) ≡ and_then (compare_bytes xs ys) (lex r s)
lex-key_text xs ys r s =
    lex-put_escaped xs ys r s ∙ ap (λ c. and_then c (lex r s)) (sym (lex-eq xs ys))

lex-key_value :
    (t : ColumnType) (v w : Value) (r s : Bytes)
    → IsColumnValue t v
    → IsColumnValue t w
    → lex (encode_key_value v ++ r) (encode_key_value w ++ s)
      ≡ and_then (compare_values v w) (lex r s)
unfolding encode_key_value key_payload compare_values
lex-key_value t Value.null Value.null r s h k = refl
lex-key_value t Value.null w r s h k = refl
lex-key_value t v Value.null r s h k = refl
lex-key_value ColumnType.integer (Value.integer i) (Value.integer j) r s h k =
    lex-put_be64_flipped i j r s h k
lex-key_value ColumnType.decimal (Value.decimal i) (Value.decimal j) r s h k =
    lex-put_be64_flipped i j r s h k
lex-key_value ColumnType.timestamp (Value.timestamp i) (Value.timestamp j) r s h k =
    lex-put_be64_flipped i j r s h k
lex-key_value ColumnType.boolean (Value.boolean b) (Value.boolean c) r s h k = refl
lex-key_value ColumnType.uuid (Value.uuid x) (Value.uuid y) r s h k =
    lex-memcmp x y r s (omega arith)
lex-key_value ColumnType.text (Value.text x) (Value.text y) r s h k = lex-key_text x y r s
lex-key_value ColumnType.blob (Value.blob x) (Value.blob y) r s h k = lex-key_text x y r s
lex-key_value t v w r s h k = ground arith

lex-encode_key :
    (ts : List ColumnType) (vs ws : Row)
    → IsKey ts vs
    → IsKey ts ws
    → lex (encode_key vs) (encode_key ws) ≡ compare_rows vs ws
unfolding encode_key
lex-encode_key [] [] [] h k = refl
lex-encode_key (t ∷ ts) (v ∷ vs) (w ∷ ws) h k =
    lex-key_value t v w (encode_key vs) (encode_key ws) h.0 k.0
    ∙ ap (and_then (compare_values v w)) (lex-encode_key ts vs ws h.1 k.1)
lex-encode_key ts vs ws h k = ground arith

-- Two keys of one index are ordered by their bytes, as the b-tree orders them, as their rows are by
-- their values, column by column.
pub encode_key-preserves_order :
    (ts : List ColumnType) (vs ws : Row)
    → IsKey ts vs
    → IsKey ts ws
    → compare_bytes (encode_key vs) (encode_key ws) ≡ compare_rows vs ws
encode_key-preserves_order ts vs ws h k =
    lex-eq (encode_key vs) (encode_key ws) ∙ lex-encode_key ts vs ws h k
