-- ===== src/Engine/BTree/Leaf/Entries.antt =====
-- The cells of a leaf of engine/src/engine/btree.cpp as a list of entries in the order of their keys.
use Prim.Native.Nat.{Ordering}
use native.Mathlib.Nat.{suc-add}
use mathlib.Core.Path.{ap₂}
use archivum.Base.{
  ℕ, zero, suc, ◌+◌, ◌-◌, ◌<◌, ◌≤◌, ◌≡◌, ◌==◌, refl, sym, ap, ◌∙◌, subst, arith, Bool, true, false,
  ◌≢◌, Bool-cases, inl, inr, if◌then◌else◌, Option, none, some, List, [], ◌∷◌, ◌++◌, Bytes, All,
  All-append, All-take, All-drop, take, drop,
}
use archivum.Engine.Types.{compare_bytes}
use archivum.Engine.Types.Order.{compare_bytes_refl, compare_bytes-eq}
use archivum.Engine.BTree.Node.{cell_key, is_equal}
use archivum.Engine.BTree.Node.Shape.{tabulate}
use archivum.Engine.BTree.Leaf.{Stored, stored_of}

-- The key of the cell is the one sought.
abbrev pub hits : Bytes → Bytes → Bool
hits k c = is_equal (compare_bytes (cell_key true c) k)

abbrev pub Before : Bytes → Bytes → Type 0
Before c d = compare_bytes (cell_key true c) (cell_key true d) ≡ Ordering.lt

-- What the cells hold under a key.
abbrev pub lookup : Bytes → List Bytes → Option Stored
lookup k [] = none
lookup k (c ∷ cs) = if hits k c then some (stored_of c) else lookup k cs

-- The keys ascend.
abbrev pub Ascending : List Bytes → Type 0
Ascending [] = Unit {0}
Ascending (c ∷ cs) = All (Before c) cs × Ascending cs

pub lookup_skip :
    (k : Bytes) (n : ℕ) (c : Bytes) (cs : List Bytes)
    → hits k c ≡ false
    → lookup k (take n cs ++ c ∷ drop n cs) ≡ lookup k cs
lookup_skip k zero c cs h = rw h
lookup_skip k (suc n) c [] h = rw h
lookup_skip k (suc n) c (d ∷ cs) h =
    ap (λ o. if hits k d then some (stored_of d) else o) (lookup_skip k n c cs h)

pub lookup_found :
    (k : Bytes) (c : Bytes) (xs ys : List Bytes)
    → All (λ d. hits k d ≡ false) xs
    → hits k c ≡ true
    → lookup k (xs ++ c ∷ ys) ≡ some (stored_of c)
lookup_found k c [] ys a h = rw h
lookup_found k c (x ∷ xs) ys a h = rw a.0 (lookup_found k c xs ys a.1 h)

pub lookup-none :
    (k : Bytes) (cs : List Bytes) → All (λ d. hits k d ≡ false) cs → lookup k cs ≡ none
lookup-none k [] a = refl
lookup-none k (c ∷ cs) a = rw a.0 (lookup-none k cs a.1)

pub lookup_without :
    (k : Bytes) (f : ℕ → Bytes) (at n i : ℕ)
    → at < n
    → hits k (f (i + at)) ≡ false
    → lookup k (take at (tabulate f n i) ++ drop (at + 1) (tabulate f n i))
      ≡ lookup k (tabulate f n i)
lookup_without k f at zero i h e = absurd (omega arith)
lookup_without k f zero (suc n) i h e = rw (ap (λ j. hits k (f j)) same ∙ e)
  where
    same : i ≡ i + 0
    same = omega arith
lookup_without k f (suc at) (suc n) i h e =
    ap (λ o. if hits k (f i) then some (stored_of (f i)) else o)
      (ap (λ m. lookup k (take at (tabulate f n (i + 1)) ++ drop m (f i ∷ tabulate f n (i + 1))))
          (suc-add at 1)
        ∙ lookup_without k f at n (i + 1) (omega arith) (ap (λ j. hits k (f j)) place ∙ e))
  where
    place : i + 1 + at ≡ i + suc at
    place = omega arith

pub Ascending-insert :
    (n : ℕ) (c : Bytes) (cs : List Bytes)
    → Ascending cs
    → All (λ d. Before d c) (take n cs)
    → All (Before c) (drop n cs)
    → Ascending (take n cs ++ c ∷ drop n cs)
Ascending-insert zero c cs a b d = (d, a)
Ascending-insert (suc n) c [] a b d = (tt, tt)
Ascending-insert (suc n) c (x ∷ cs) a b d = (
  All-append (Before x) (take n cs) (c ∷ drop n cs) (All-take (Before x) n cs a.0)
      (b.0, All-drop (Before x) n cs a.0),
  Ascending-insert n c cs a.1 b.1 d,
)

pub Ascending-remove :
    (n : ℕ) (cs : List Bytes) → Ascending cs → Ascending (take n cs ++ drop (n + 1) cs)
Ascending-remove zero [] a = tt
Ascending-remove zero (x ∷ cs) a = a.1
Ascending-remove (suc n) [] a = subst (λ m. Ascending (drop m (the_empty))) (sym (suc-add n 1)) tt
  where
    the_empty : List Bytes
    the_empty = []
Ascending-remove (suc n) (x ∷ cs) a =
    subst (λ m. Ascending (x ∷ (take n cs ++ drop m (x ∷ cs)))) (sym (suc-add n 1))
      (
        All-append (Before x) (take n cs) (drop (n + 1) cs) (All-take (Before x) n cs a.0)
            (All-drop (Before x) (n + 1) cs a.0),
        Ascending-remove n cs a.1,
      )

pub All-tabulate :
    {A : Type 0} (P : A → Type 0) (f : ℕ → A) (n i : ℕ)
    → ((j : ℕ) → i ≤ j → j < i + n → P (f j))
    → All P (tabulate f n i)
All-tabulate P f zero i h = tt
All-tabulate P f (suc n) i h = (
  h i (omega arith) (omega arith),
  All-tabulate P f n (i + 1) (λ j a b. h j (omega arith) (omega arith)),
)

pub All-at :
    {A : Type 0} (P : A → Type 0) (f : ℕ → A) (n i j : ℕ)
    → All P (tabulate f n i)
    → i ≤ j
    → j < i + n
    → P (f j)
All-at P f zero i j a h l = absurd (omega arith)
All-at P f (suc n) i j a h l = elim (Bool-cases (i == j)) [
  | inl e ↦ subst (λ m. P (f m)) (same e) a.0
  | inr e ↦ All-at P f n (i + 1) j a.1 (ground arith) (omega arith)
]
  where
    same : (i == j) ≡ true → i ≡ j
    same e = ground arith

pub Ascending-tabulate :
    (f : ℕ → Bytes) (n i : ℕ)
    → ((a b : ℕ) → i ≤ a → a < b → b < i + n → Before (f a) (f b))
    → Ascending (tabulate f n i)
Ascending-tabulate f zero i h = tt
Ascending-tabulate f (suc n) i h = (
  All-tabulate (Before (f i)) f n (i + 1)
      (λ j a b. h i j (omega arith) (omega arith) (omega arith)),
  Ascending-tabulate f n (i + 1) (λ a b p q r. h a b (omega arith) q (omega arith)),
)

pub Before-at :
    (f : ℕ → Bytes) (n i a b : ℕ)
    → Ascending (tabulate f n i)
    → i ≤ a
    → a < b
    → b < i + n
    → Before (f a) (f b)
Before-at f zero i a b asc p q r = absurd (omega arith)
Before-at f (suc n) i a b asc p q r = elim (Bool-cases (i == a)) [
  | inl e ↦
      subst (λ m. Before (f m) (f b)) (same e)
        (All-at (Before (f i)) f n (i + 1) b asc.0 (ground arith) (omega arith))
  | inr e ↦ Before-at f n (i + 1) a b asc.1 (ground arith) q (omega arith)
]
  where
    same : (i == a) ≡ true → i ≡ a
    same e = ground arith

pub take-tabulate :
    {A : Type 0} (f : ℕ → A) (k n i : ℕ) → k ≤ n → take k (tabulate f n i) ≡ tabulate f k i
take-tabulate f zero n i h = refl
take-tabulate f (suc k) zero i h = absurd (omega arith)
take-tabulate f (suc k) (suc n) i h = ap (◌∷◌ (f i)) (take-tabulate f k n (i + 1) (omega arith))

pub drop-tabulate :
    {A : Type 0} (f : ℕ → A) (k n i : ℕ)
    → k ≤ n
    → drop k (tabulate f n i) ≡ tabulate f (n - k) (i + k)
drop-tabulate f zero n i h = ap₂ (tabulate f) (omega arith) (omega arith)
drop-tabulate f (suc k) zero i h = absurd (omega arith)
drop-tabulate f (suc k) (suc n) i h =
    drop-tabulate f k n (i + 1) (omega arith) ∙ ap₂ (tabulate f) (omega arith) (omega arith)

pub lookup-at :
    (k : Bytes) (f : ℕ → Bytes) (n i r : ℕ)
    → i ≤ r
    → r < i + n
    → ((j : ℕ) → i ≤ j → j < r → hits k (f j) ≡ false)
    → hits k (f r) ≡ true
    → lookup k (tabulate f n i) ≡ some (stored_of (f r))
lookup-at k f zero i r h l before here = absurd (omega arith)
lookup-at k f (suc n) i r h l before here = elim (Bool-cases (i == r)) [
  | inl e ↦
      subst (λ m. lookup k (tabulate f (suc n) i) ≡ some (stored_of (f m))) (same e)
        (rw (ap (λ m. hits k (f m)) (same e) ∙ here))
  | inr e ↦ rw (before i (omega arith) (ground arith)) (
      lookup-at k f n (i + 1) r (ground arith) (omega arith) (λ j a b. before j (omega arith) b)
        here)
]
  where
    same : (i == r) ≡ true → i ≡ r
    same e = ground arith

-- A cell whose key is less or greater than that of another does not have it.
pub not_hits-Before :
    (k c : Bytes) (xs : List Bytes)
    → cell_key true c ≡ k
    → All (λ d. Before d c) xs
    → All (λ d. hits k d ≡ false) xs
not_hits-Before k c [] e a = tt
not_hits-Before k c (x ∷ xs) e a = (
  ap (λ y. is_equal (compare_bytes (cell_key true x) y)) (sym e) ∙ ap is_equal a.0,
  not_hits-Before k c xs e a.1,
)

pub hits_itself : (k c : Bytes) → cell_key true c ≡ k → hits k c ≡ true
hits_itself k c e = ap (λ y. is_equal (compare_bytes y k)) e ∙ ap is_equal (compare_bytes_refl k)

pub hits_other : (k l c : Bytes) → cell_key true c ≡ k → l ≢ k → hits l c ≡ false
hits_other k l c e h = elim (Bool-cases (hits l c)) [
  | inr no_hit ↦ no_hit
  | inl hit ↦ absurd (h (sym (sym e ∙ compare_bytes-eq (cell_key true c) l (equal hit))))
]
  where
    equal : hits l c ≡ true → compare_bytes (cell_key true c) l ≡ Ordering.eq
    equal t = ground arith
