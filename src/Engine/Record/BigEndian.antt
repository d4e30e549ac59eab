-- ===== src/Engine/Record/BigEndian.antt =====
-- The eight bytes of a key's integer: they read back, and they are ordered as the integer is.
use Prim.Native.Nat.{Ordering, compare}
use archivum.Base.{
  ℕ, zero, suc, ◌+◌, ◌-◌, ◌*◌, ◌/◌, ◌%◌, ◌^◌, ◌<◌, ◌≡◌, refl, sym, ap, ◌∙◌, arith, [], ◌∷◌, ◌++◌,
  Bytes, length, take_all, bit_xor,
}
use mathlib.Core.Path.{ap₂}
use mathlib.Core.List.{append_assoc}
use native.Mathlib.Nat.{pow-suc, div-div-eq-div-mul}
use native.Mathlib.Numerals.{towards_suc}
use archivum.Base.Bits.{xor_top_clear, xor_top_set, xor_assoc, xor_self, xor-zero}
use archivum.Base.Int.{ℤ, pos, negsuc, IsInt64, to_u64, to_i64, to_i64-to_u64}
use archivum.Engine.Types.{and_then, compare_int}
use archivum.Engine.Record.{big_endian, put_be64_flipped, get_be64, get_be64_flipped, sign_bit}

-- The lowest byte stands last.
shift-suc : (i u : ℕ) → u / 2 ^ (8 * suc i) ≡ u / 256 / 2 ^ (8 * i)
shift-suc i u = ap (λ t. u / t) weight ∙ sym (div-div-eq-div-mul u 256 (2 ^ (8 * i)))
  where
    weight : 2 ^ (8 * suc i) ≡ 256 * 2 ^ (8 * i)
    weight = ap (λ t. 2 ^ t) next ∙ simp towards_suc (omega (arith, pow-suc 2 (8 * i)))
      where
        next : 8 * suc i ≡ 8 * i + 8
        next = omega arith

big_endian-snoc : (n u : ℕ) → big_endian (suc n) u ≡ big_endian n (u / 256) ++ (u % 256) ∷ []
unfolding big_endian
big_endian-snoc zero u = ap (λ t. (t % 256) ∷ []) (omega arith)
big_endian-snoc (suc n) u = ap₂ (◌∷◌) (ap (λ t. t % 256) (shift-suc n u)) (big_endian-snoc n u)

pub length-big_endian : (n u : ℕ) → length (big_endian n u) ≡ n
unfolding big_endian
length-big_endian zero u = refl
length-big_endian (suc n) u = ap suc (length-big_endian n u)

get_be64-append : (u : ℕ) (xs ys : Bytes) → get_be64 u (xs ++ ys) ≡ get_be64 (get_be64 u xs) ys
unfolding get_be64
get_be64-append u [] ys = refl
get_be64-append u (x ∷ xs) ys = get_be64-append (u * 256 % 2 ^ 64 + x) xs ys

abbrev bound : ℕ → ℕ
bound zero = 1
bound (suc n) = 256 * bound n

-- The loop loses nothing of a number of `n` bytes that fits 64 bits.
get-big_endian : (n u : ℕ) → u < bound n → u < 2 ^ 64 → get_be64 0 (big_endian n u) ≡ u
get-big_endian zero u h f = unfold get_be64 big_endian in omega arith
get-big_endian (suc n) u h f =
    ap (get_be64 0) (big_endian-snoc n u)
    ∙ get_be64-append 0 (big_endian n (u / 256)) ((u % 256) ∷ [])
    ∙ ap (λ t. get_be64 t ((u % 256) ∷ [])) (get-big_endian n (u / 256) (omega arith) (omega arith))
    ∙ unfold get_be64 in omega arith

-- Exchanging the sign bit shifts the range of the signed integers up to the unsigned ones.
abbrev shifted : ℤ → ℕ
shifted (pos n) = n + 2 ^ 63
shifted (negsuc n) = 2 ^ 63 - 1 - n

flip-shifted : (v : ℤ) → IsInt64 v → bit_xor (to_u64 v) sign_bit ≡ shifted v
unfolding to_u64
flip-shifted (pos n) h = ap (λ t. bit_xor t (2 ^ 63)) (omega arith) ∙ xor_top_clear 63 n h
flip-shifted (negsuc n) h =
    ap (λ t. bit_xor t (2 ^ 63)) as_sum ∙ xor_top_set 63 (2 ^ 63 - 1 - n) (omega arith)
  where
    as_sum : 2 ^ 64 - 1 - n % 2 ^ 64 ≡ 2 ^ 63 - 1 - n + 2 ^ 63
    as_sum = omega arith

shifted-lt : (v : ℤ) → IsInt64 v → shifted v < 2 ^ 64
shifted-lt (pos n) h = omega arith
shifted-lt (negsuc n) h = omega arith

pub length-put_be64_flipped : (v : ℤ) → length (put_be64_flipped v) ≡ 8
unfolding put_be64_flipped
length-put_be64_flipped v = length-big_endian 8 _

-- A signed integer reads back from its eight bytes.
pub get-put_be64_flipped : (v : ℤ) → IsInt64 v → get_be64_flipped (put_be64_flipped v) ≡ v
unfolding get_be64_flipped put_be64_flipped
get-put_be64_flipped v h =
    ap (λ bs. to_i64 (bit_xor (get_be64 0 bs) sign_bit))
      (take_all 8 (big_endian 8 flipped) (omega (arith, length-big_endian 8 flipped)))
    ∙ ap (λ t. to_i64 (bit_xor t sign_bit)) (get-big_endian 8 flipped fits fits)
    ∙ ap to_i64 back
    ∙ to_i64-to_u64 v h
  where
    flipped : ℕ
    flipped = bit_xor (to_u64 v) sign_bit

    fits : flipped < 2 ^ 64
    fits = omega (arith, flip-shifted v h, shifted-lt v h)

    back : bit_xor (bit_xor (to_u64 v) sign_bit) sign_bit ≡ to_u64 v
    back =
        xor_assoc (to_u64 v) sign_bit sign_bit
        ∙ ap (bit_xor (to_u64 v)) (xor_self sign_bit)
        ∙ xor-zero (to_u64 v)

-- Lexicographic order of byte sequences.
abbrev pub lex : Bytes → Bytes → Ordering
lex [] [] = Ordering.eq
lex [] (y ∷ ys) = Ordering.lt
lex (x ∷ xs) [] = Ordering.gt
lex (x ∷ xs) (y ∷ ys) = and_then (compare x y) (lex xs ys)

pub and_then_assoc : (a b c : Ordering) → and_then (and_then a b) c ≡ and_then a (and_then b c)
and_then_assoc Ordering.lt b c = refl
and_then_assoc Ordering.eq b c = refl
and_then_assoc Ordering.gt b c = refl

-- Numbers are ordered by their high part and then by their lowest byte.
compare-div :
    (u w : ℕ) → compare u w ≡ and_then (compare (u / 256) (w / 256)) (compare (u % 256) (w % 256))
compare-div u w = ground arith

lex-big_endian :
    (n u w : ℕ) (r s : Bytes)
    → u < bound n
    → w < bound n
    → lex (big_endian n u ++ r) (big_endian n w ++ s) ≡ and_then (compare u w) (lex r s)
lex-big_endian zero u w r s h k = unfold big_endian in ground arith
lex-big_endian (suc n) u w r s h k =
    ap₂ lex (last_apart u r) (last_apart w s)
    ∙ lex-big_endian n (u / 256) (w / 256) ((u % 256) ∷ r) ((w % 256) ∷ s) (omega arith)
        (omega arith)
    ∙ sym (and_then_assoc (compare (u / 256) (w / 256)) (compare (u % 256) (w % 256)) (lex r s))
    ∙ ap (λ c. and_then c (lex r s)) (sym (compare-div u w))
  where
    last_apart :
        (x : ℕ) (rest : Bytes)
        → big_endian (suc n) x ++ rest ≡ big_endian n (x / 256) ++ (x % 256) ∷ rest
    last_apart x rest =
        ap (λ bs. bs ++ rest) (big_endian-snoc n x)
        ∙ append_assoc (big_endian n (x / 256)) ((x % 256) ∷ []) rest

compare-shifted :
    (v w : ℤ) → IsInt64 v → IsInt64 w → compare (shifted v) (shifted w) ≡ compare_int v w
unfolding compare_int
compare-shifted (pos m) (pos n) h k = ground arith
compare-shifted (pos m) (negsuc n) h k = ground arith
compare-shifted (negsuc m) (pos n) h k = ground arith
compare-shifted (negsuc m) (negsuc n) h k = ground arith

-- The bytes of two signed integers are ordered as the integers.
pub lex-put_be64_flipped :
    (v w : ℤ) (r s : Bytes)
    → IsInt64 v
    → IsInt64 w
    → lex (put_be64_flipped v ++ r) (put_be64_flipped w ++ s) ≡ and_then (compare_int v w) (lex r s)
unfolding put_be64_flipped
lex-put_be64_flipped v w r s h k =
    ap₂ (λ a b. lex (big_endian 8 a ++ r) (big_endian 8 b ++ s)) (flip-shifted v h)
      (flip-shifted w k)
    ∙ lex-big_endian 8 (shifted v) (shifted w) r s (shifted-lt v h) (shifted-lt w k)
    ∙ ap (λ c. and_then c (lex r s)) (compare-shifted v w h k)
