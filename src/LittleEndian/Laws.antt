-- ===== src/LittleEndian/Laws.antt =====
-- Writing and reading little-endian integers are inverse to one another.
use archivum.Base.{
  ℕ, zero, suc, ◌+◌, ◌*◌, ◌/◌, ◌%◌, ◌^◌, ◌≤◌, ◌<◌, ◌≡◌, refl, sym, ap, ◌∙◌, arith, [], ◌∷◌, ◌++◌,
  Bytes, IsByte, IsBytes, length, take, length-take, take_all, All-take,
}
use mathlib.Core.Path.{ap₂, subst}
use native.Mathlib.Nat.{pow-suc, div-div-eq-div-mul}
use native.Mathlib.Numerals.{towards_suc}
use archivum.LittleEndian.{put_from, put_u32, put_u64, get_from, get_u32, get_u64}

-- The same by division of what is left.
abbrev put : ℕ → ℕ → Bytes
put zero v = []
put (suc n) v = (v % 256) ∷ put n (v / 256)

abbrev pub get : Bytes → ℕ
get [] = 0
get (b ∷ bs) = b + 256 * get bs

weight-suc : (i : ℕ) → 2 ^ (8 * (i + 1)) ≡ 2 ^ (8 * i) * 256
weight-suc i = ap (λ t. 2 ^ t) next ∙ simp towards_suc (omega (arith, pow-suc 2 (8 * i)))
  where
    next : 8 * (i + 1) ≡ 8 * i + 8
    next = omega arith

put_from-eq : (n i v : ℕ) → put_from n i v ≡ put n (v / 2 ^ (8 * i))
unfolding put_from
put_from-eq zero i v = refl
put_from-eq (suc n) i v =
    ap (◌∷◌ (v / 2 ^ (8 * i) % 256)) (put_from-eq n (i + 1) v ∙ ap (put n) smaller)
  where
    smaller : v / 2 ^ (8 * (i + 1)) ≡ v / 2 ^ (8 * i) / 256
    smaller = ap (λ t. v / t) (weight-suc i) ∙ sym (div-div-eq-div-mul v (2 ^ (8 * i)) 256)

get_from-eq : (i : ℕ) (bs : Bytes) → get_from i bs ≡ 2 ^ (8 * i) * get bs
unfolding get_from
get_from-eq i [] = omega arith
get_from-eq i (b ∷ bs) = omega (arith, get_from-eq (i + 1) bs, ap (λ t. t * get bs) (weight-suc i))

-- 256 ^ n
abbrev pub bound : ℕ → ℕ
bound zero = 1
bound (suc n) = 256 * bound n

get-put : (n v : ℕ) → v < bound n → get (put n v) ≡ v
get-put zero v h = omega arith
get-put (suc n) v h = omega (arith, get-put n (v / 256) (omega arith))

put-get : (bs : Bytes) → IsBytes bs → put (length bs) (get bs) ≡ bs
put-get [] v = refl
put-get (b ∷ bs) v = ap₂ (◌∷◌) low (ap (put (length bs)) high ∙ put-get bs v.1)
  where
    low : (b + 256 * get bs) % 256 ≡ b
    low = omega arith

    high : (b + 256 * get bs) / 256 ≡ get bs
    high = omega arith

pub get-lt : (n : ℕ) (bs : Bytes) → IsBytes bs → length bs ≤ n → get bs < bound n
get-lt zero [] v h = omega arith
get-lt zero (b ∷ bs) v h = absurd (omega arith)
get-lt (suc n) [] v h = omega (arith, get-lt n [] tt (omega arith))
get-lt (suc n) (b ∷ bs) v h = omega (arith, get-lt n bs v.1 (omega arith))

-- Bytes of one length are determined by the number that they spell.
pub get_injective :
    (xs ys : Bytes) → IsBytes xs → IsBytes ys → length xs ≡ length ys → get xs ≡ get ys → xs ≡ ys
get_injective xs ys v w l h = sym (put-get xs v) ∙ ap₂ put l h ∙ put-get ys w

put-IsBytes : (n v : ℕ) → IsBytes (put n v)
put-IsBytes zero v = tt
put-IsBytes (suc n) v = (omega arith, put-IsBytes n (v / 256))

length-put : (n v : ℕ) → length (put n v) ≡ n
length-put zero v = refl
length-put (suc n) v = ap suc (length-put n (v / 256))

take-put : (n v : ℕ) (rest : Bytes) → take n (put n v ++ rest) ≡ put n v
take-put zero v rest = refl
take-put (suc n) v rest = ap (λ t. (v % 256) ∷ t) (take-put n (v / 256) rest)

from_start : (n v : ℕ) → put_from n 0 v ≡ put n v
from_start n v = put_from-eq n 0 v ∙ ap (put n) (omega arith)

get_from_start : (bs : Bytes) → get_from 0 bs ≡ get bs
get_from_start bs = get_from-eq 0 bs ∙ omega arith

pub read_back :
    (n v : ℕ) (rest : Bytes) → v < bound n → get_from 0 (take n (put_from n 0 v ++ rest)) ≡ v
read_back n v rest h =
    ap (λ t. get_from 0 (take n (t ++ rest))) (from_start n v)
    ∙ ap (get_from 0) (take-put n v rest)
    ∙ get_from_start (put n v)
    ∙ get-put n v h

-- A 32-bit word reads back as it was written, whatever follows it.
pub get_u32-put_u32 : (v : ℕ) (rest : Bytes) → v < 2 ^ 32 → get_u32 (put_u32 v ++ rest) ≡ v
unfolding get_u32 put_u32
get_u32-put_u32 v rest h = read_back 4 v rest h

-- A 64-bit word reads back as it was written, whatever follows it.
pub get_u64-put_u64 : (v : ℕ) (rest : Bytes) → v < 2 ^ 64 → get_u64 (put_u64 v ++ rest) ≡ v
unfolding get_u64 put_u64
get_u64-put_u64 v rest h = read_back 8 v rest h

pub put_u32-get_u32 : (bs : Bytes) → IsBytes bs → length bs ≡ 4 → put_u32 (get_u32 bs) ≡ bs
unfolding get_u32 put_u32
put_u32-get_u32 bs v h =
    from_start 4 _
    ∙ ap₂ put (sym h) (get_from_start (take 4 bs) ∙ ap get (take_all 4 bs (omega arith)))
    ∙ put-get bs v

pub put_u32-IsBytes : (v : ℕ) → IsBytes (put_u32 v)
unfolding put_u32
put_u32-IsBytes v = (omega arith, (omega arith, (omega arith, (omega arith, tt))))

pub put_u64-IsBytes : (v : ℕ) → IsBytes (put_u64 v)
unfolding put_u64
put_u64-IsBytes v = subst IsBytes (sym (from_start 8 v)) (put-IsBytes 8 v)

pub length-put_u32 : (v : ℕ) → length (put_u32 v) ≡ 4
unfolding put_u32
length-put_u32 v = refl

pub length-put_u64 : (v : ℕ) → length (put_u64 v) ≡ 8
unfolding put_u64
length-put_u64 v = refl

pub get_u32-lt : (bs : Bytes) → IsBytes bs → get_u32 bs < 2 ^ 32
unfolding get_u32
get_u32-lt bs v = omega (
  arith,
  get_from_start (take 4 bs),
  get-lt 4 (take 4 bs) (All-take IsByte 4 bs v) (omega (arith, length-take {0} 4 bs)),
)
