-- ===== src/Engine/Types/Order.antt =====
-- The order of byte strings of engine/src/engine/types.cpp, which is that of the keys of
-- engine/src/engine/btree.cpp.
use Prim.Native.Nat.{Ordering, compare}
use archivum.Base.{ℕ, ◌≡◌, refl, sym, ap, ◌∙◌, arith, Bytes, [], ◌∷◌}
use mathlib.Core.Path.{ap₂}
use archivum.Engine.Types.{and_then, memcmp, compare_bytes}

and_then_assoc : (a b c : Ordering) → and_then (and_then a b) c ≡ and_then a (and_then b c)
and_then_assoc Ordering.lt b c = refl
and_then_assoc Ordering.eq b c = refl
and_then_assoc Ordering.gt b c = refl

pub compare_bytes-cons :
    (x y : ℕ) (xs ys : Bytes)
    → compare_bytes (x ∷ xs) (y ∷ ys) ≡ and_then (compare x y) (compare_bytes xs ys)
unfolding compare_bytes
compare_bytes-cons x y xs ys =
    and_then_assoc (compare x y) (memcmp xs ys) _
    ∙ ap (λ c. and_then (compare x y) (and_then (memcmp xs ys) c)) (ground arith)

pub compare_bytes_refl : (xs : Bytes) → compare_bytes xs xs ≡ Ordering.eq
compare_bytes_refl [] = unfold compare_bytes in refl
compare_bytes_refl (x ∷ xs) = compare_bytes-cons x x xs xs ∙ ground (arith, compare_bytes_refl xs)

-- Strings that compare as equal are equal.
pub compare_bytes-eq : (xs ys : Bytes) → compare_bytes xs ys ≡ Ordering.eq → xs ≡ ys
compare_bytes-eq [] [] h = refl
compare_bytes-eq [] (y ∷ ys) h = absurd (unfold compare_bytes in ground arith)
compare_bytes-eq (x ∷ xs) [] h = absurd (unfold compare_bytes in ground arith)
compare_bytes-eq (x ∷ xs) (y ∷ ys) h =
    ap₂ (◌∷◌) (first (sym (compare_bytes-cons x y xs ys) ∙ h))
      (compare_bytes-eq xs ys (rest (sym (compare_bytes-cons x y xs ys) ∙ h)))
  where
    first : and_then (compare x y) (compare_bytes xs ys) ≡ Ordering.eq → x ≡ y
    first e = ground arith

    rest :
        and_then (compare x y) (compare_bytes xs ys) ≡ Ordering.eq
        → compare_bytes xs ys ≡ Ordering.eq
    rest e = ground arith

none_before_empty : (xs : Bytes) → compare_bytes xs [] ≡ Ordering.lt → ⊥
unfolding compare_bytes
none_before_empty [] h = ground arith
none_before_empty (x ∷ xs) h = ground arith

trans_step :
    (x y z : ℕ) (a b c : Ordering)
    → and_then (compare x y) a ≡ Ordering.lt
    → and_then (compare y z) b ≡ Ordering.lt
    → (a ≡ Ordering.lt → b ≡ Ordering.lt → c ≡ Ordering.lt)
    → and_then (compare x z) c ≡ Ordering.lt
trans_step x y z a b c h k f = ground arith

pub compare_bytes_trans :
    (xs ys zs : Bytes)
    → compare_bytes xs ys ≡ Ordering.lt
    → compare_bytes ys zs ≡ Ordering.lt
    → compare_bytes xs zs ≡ Ordering.lt
compare_bytes_trans xs [] zs h k = absurd (none_before_empty xs h)
compare_bytes_trans [] (y ∷ ys) [] h k = absurd (none_before_empty (y ∷ ys) k)
compare_bytes_trans [] (y ∷ ys) (z ∷ zs) h k = unfold compare_bytes in ground arith
compare_bytes_trans (x ∷ xs) (y ∷ ys) [] h k = absurd (none_before_empty (y ∷ ys) k)
compare_bytes_trans (x ∷ xs) (y ∷ ys) (z ∷ zs) h k =
    compare_bytes-cons x z xs zs
    ∙ trans_step x y z (compare_bytes xs ys) (compare_bytes ys zs) (compare_bytes xs zs)
        (sym (compare_bytes-cons x y xs ys) ∙ h) (sym (compare_bytes-cons y z ys zs) ∙ k)
        (compare_bytes_trans xs ys zs)

flip_step :
    (x y : ℕ) (a b : Ordering)
    → and_then (compare x y) a ≡ Ordering.gt
    → (a ≡ Ordering.gt → b ≡ Ordering.lt)
    → and_then (compare y x) b ≡ Ordering.lt
flip_step x y a b h f = ground arith

pub compare_bytes_flip :
    (xs ys : Bytes) → compare_bytes xs ys ≡ Ordering.gt → compare_bytes ys xs ≡ Ordering.lt
compare_bytes_flip [] [] h = absurd (unfold compare_bytes in ground arith)
compare_bytes_flip [] (y ∷ ys) h = absurd (unfold compare_bytes in ground arith)
compare_bytes_flip (x ∷ xs) [] h = unfold compare_bytes in ground arith
compare_bytes_flip (x ∷ xs) (y ∷ ys) h =
    compare_bytes-cons y x ys xs
    ∙ flip_step x y (compare_bytes xs ys) (compare_bytes ys xs)
        (sym (compare_bytes-cons x y xs ys) ∙ h) (compare_bytes_flip xs ys)
