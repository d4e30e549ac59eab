-- ===== src/Engine/BTree/Node/Shape.antt =====
-- A node of engine/src/engine/btree.cpp as the list of its cells, and the layout that its operations keep.
use archivum.Base.{
  ℕ, zero, suc, ◌+◌, ◌-◌, ◌*◌, ◌^◌, ◌<◌, ◌≤◌, ◌≡◌, refl, sym, ap, ◌∙◌, arith, ◌==◌, Bool, true,
  false, not, if◌then◌else◌, List, [], ◌∷◌, ◌++◌, Bytes, length, take, drop, take-append-drop,
}
use mathlib.Core.Path.{ap₂}
use Prim.Native.Nat.{bit_and}
use native.Mathlib.Nat.{suc-add}
use archivum.LittleEndian.{get_from, get_u32}
use archivum.Engine.BTree.Node.{
  get_u16, get_u8, is_leaf, count, content_start, frag, slot, cell, cell_size, size_of, overflowed,
  value_len,
}
use archivum.Engine.BTree.Node.Memory.{peek-append, peek-take, length-peek}

-- The values of a function from an index on.
abbrev pub tabulate {ℓ} : {A : Type ℓ} → (ℕ → A) → ℕ → ℕ → List A
tabulate f zero i = []
tabulate f (suc n) i = f i ∷ tabulate f n (i + 1)

pub length-tabulate {ℓ} : {A : Type ℓ} (f : ℕ → A) (n i : ℕ) → length (tabulate f n i) ≡ n
length-tabulate f zero i = refl
length-tabulate f (suc n) i = ap suc (length-tabulate f n (i + 1))

pub tabulate_shift {ℓ} :
    {A : Type ℓ} (f g : ℕ → A) (n i k : ℕ)
    → ((j : ℕ) → i ≤ j → j < i + n → g (j + k) ≡ f j)
    → tabulate g n (i + k) ≡ tabulate f n i
tabulate_shift f g zero i k h = refl
tabulate_shift f g (suc n) i k h = ap₂ (◌∷◌) (h i (omega arith) (omega arith)) (
    ap (tabulate g n) next
    ∙ tabulate_shift f g n (i + 1) k (λ j a b. h j (omega arith) (omega arith)))
  where
    next : i + k + 1 ≡ i + 1 + k
    next = omega arith

-- A function that has one more value at `i + at`.
pub tabulate_insert {ℓ} :
    {A : Type ℓ} (f g : ℕ → A) (c : A) (at n i : ℕ)
    → at ≤ n
    → ((j : ℕ) → i ≤ j → j < i + at → g j ≡ f j)
    → g (i + at) ≡ c
    → ((j : ℕ) → i + at ≤ j → j < i + n → g (j + 1) ≡ f j)
    → tabulate g (n + 1) i ≡ take at (tabulate f n i) ++ c ∷ drop at (tabulate f n i)
tabulate_insert f g c zero n i h before here behind =
    ap (λ m. tabulate g m i) more
    ∙ ap₂ (◌∷◌) (ap g same ∙ here) (tabulate_shift f g n i 1 (λ j a b. behind j (omega arith) b))
  where
    more : n + 1 ≡ suc n
    more = omega arith

    same : i ≡ i + 0
    same = omega arith
tabulate_insert f g c (suc at) zero i h before here behind = absurd (omega arith)
tabulate_insert f g c (suc at) (suc n) i h before here behind =
    ap (λ m. tabulate g m i) (suc-add n 1)
    ∙ ap₂ (◌∷◌) (before i (omega arith) (omega arith)) (
        tabulate_insert f g c at n (i + 1) (omega arith)
          (λ j a b. before j (omega arith) (omega arith)) (ap g place ∙ here)
          (λ j a b. behind j (omega arith) (omega arith)))
  where
    place : i + 1 + at ≡ i + suc at
    place = omega arith

-- A function that has one value less.
pub tabulate_remove {ℓ} :
    {A : Type ℓ} (f g : ℕ → A) (at n i : ℕ)
    → at < n
    → ((j : ℕ) → i ≤ j → j < i + at → g j ≡ f j)
    → ((j : ℕ) → i + at ≤ j → j + 1 < i + n → g j ≡ f (j + 1))
    → tabulate g (n - 1) i ≡ take at (tabulate f n i) ++ drop (at + 1) (tabulate f n i)
tabulate_remove f g at zero i h before behind = absurd (omega arith)
tabulate_remove f g zero (suc n) i h before behind =
    ap (λ m. tabulate g m i) less
    ∙ sym (tabulate_shift g f n i 1 (λ j a b. sym (behind j (omega arith) (omega arith))))
  where
    less : suc n - 1 ≡ n
    less = omega arith
tabulate_remove f g (suc at) (suc zero) i h before behind = absurd (omega arith)
tabulate_remove f g (suc at) (suc (suc n)) i h before behind =
    ap (λ m. tabulate g m i) less
    ∙ ap₂ (◌∷◌) (before i (omega arith) (omega arith)) (
        ap (λ m. tabulate g m (i + 1)) fewer
        ∙ tabulate_remove f g at (suc n) (i + 1) (omega arith)
            (λ j a b. before j (omega arith) (omega arith))
            (λ j a b. behind j (omega arith) (omega arith))
        ∙ ap
            (λ m. take at (tabulate f (suc n) (i + 1)) ++ drop m (f i ∷ tabulate f (suc n) (i + 1)))
            (sym (suc-add at 1)))
  where
    less : suc (suc n) - 1 ≡ suc n
    less = omega arith

    fewer : n ≡ suc n - 1
    fewer = omega arith

abbrev pub cell_bytes : Bytes → ℕ → Bytes
cell_bytes p i = take (cell_size p i) (cell p i)

-- The cells of a node in the order of its slots.
abbrev pub cells : Bytes → List Bytes
cells p = tabulate (cell_bytes p) (count p) 0

abbrev pub total : List Bytes → ℕ
total [] = 0
total (c ∷ cs) = length c + total cs

pub total-append : (xs ys : List Bytes) → total (xs ++ ys) ≡ total xs + total ys
total-append [] ys = omega arith
total-append (x ∷ xs) ys = omega (arith, total-append xs ys)

pub total_split : (n : ℕ) (xs : List Bytes) → total (take n xs) + total (drop n xs) ≡ total xs
total_split n xs = sym (total-append (take n xs) (drop n xs)) ∙ ap total (take-append-drop n xs)

-- The bytes of one cell.
abbrev pub IsCell : Bool → Bytes → Type 0
IsCell leaf c = size_of leaf c ≡ length c

-- The directory of slots stands behind the header, the cells at the end of the body, and nothing of the
-- body is lost: what is not free, not a cell and not the directory is counted as fragments.
pub record IsNode (usable : ℕ) (p : Bytes) : Type 0 where
  pub size_ok : length p ≡ usable + 4
  pub usable_fits : usable < 2 ^ 16
  pub directory : 24 + 2 * count p ≤ content_start p
  pub start_to : content_start p ≤ usable
  pub slot_from : (i : ℕ) → i < count p → content_start p ≤ slot p i
  pub slot_to : (i : ℕ) → i < count p → slot p i + cell_size p i ≤ usable
  pub all_used : content_start p + frag p + total (cells p) ≡ usable

-- The size of a cell stands in its header.
leaf_size-from : (c : Bytes) → 7 ≤ size_of true c
unfolding size_of
leaf_size-from c = omega arith

interior_size-from : (c : Bytes) → 10 ≤ size_of false c
unfolding size_of
interior_size-from c = omega arith

pub size_of-append :
    (leaf : Bool) (c rest : Bytes) → IsCell leaf c → size_of leaf (c ++ rest) ≡ size_of leaf c
unfolding size_of overflowed value_len get_u16 get_u8 get_u32
size_of-append true c rest h = λ i.
    7
    + get_from 0 (peek-append 0 2 c rest (omega (arith, h, leaf_size-from c)) i)
    + (if overflow i
        then 8
        else get_from 0 (peek-append 3 4 c rest (omega (arith, h, leaf_size-from c)) i))
  where
    overflow : overflowed (c ++ rest) ≡ overflowed c
    overflow =
        ap (λ bs. not (bit_and (get_from 0 bs) 1 == 0))
          (peek-append 2 1 c rest (omega (arith, h, leaf_size-from c)))
size_of-append false c rest h =
    ap (λ bs. 10 + get_from 0 bs) (peek-append 0 2 c rest (omega (arith, h, interior_size-from c)))

-- What is left without one of the values.
pub total_without :
    (f : ℕ → Bytes) (at n i : ℕ)
    → at < n
    → total (take at (tabulate f n i) ++ drop (at + 1) (tabulate f n i)) + length (f (i + at))
      ≡ total (tabulate f n i)
total_without f at zero i h = absurd (omega arith)
total_without f zero (suc n) i h = omega (arith, ap (λ j. length (f j)) same)
  where
    same : i + 0 ≡ i
    same = omega arith
total_without f (suc at) (suc n) i h = omega (
  arith,
  total_without f at n (i + 1) (omega arith),
  ap (λ j. length (f j)) place,
  ap (λ m. total (take at (tabulate f n (i + 1)) ++ drop m (f i ∷ tabulate f n (i + 1))))
      (suc-add at 1),
)
  where
    place : i + 1 + at ≡ i + suc at
    place = omega arith

pub length-cell_bytes :
    (usable : ℕ) (p : Bytes) (i : ℕ)
    → IsNode usable p
    → i < count p
    → length (cell_bytes p i) ≡ cell_size p i
unfolding cell
length-cell_bytes usable p i v h =
    length-peek (slot p i) (cell_size p i) p (omega (arith, v.slot_to i h, v.size_ok))

size_of-take_leaf : (n : ℕ) (x : Bytes) → 7 ≤ n → size_of true (take n x) ≡ size_of true x
unfolding size_of overflowed value_len get_u16 get_u8 get_u32
size_of-take_leaf n x h = λ i.
    7
    + get_from 0 (peek-take 0 2 n x (omega (arith, h)) i)
    + (if overflow i then 8 else get_from 0 (peek-take 3 4 n x (omega (arith, h)) i))
  where
    overflow : overflowed (take n x) ≡ overflowed x
    overflow =
        ap (λ bs. not (bit_and (get_from 0 bs) 1 == 0)) (peek-take 2 1 n x (omega (arith, h)))

size_of-take_interior : (n : ℕ) (x : Bytes) → 10 ≤ n → size_of false (take n x) ≡ size_of false x
unfolding size_of get_u16
size_of-take_interior n x h = ap (λ bs. 10 + get_from 0 bs) (peek-take 0 2 n x (omega (arith, h)))

size_of-take : (leaf : Bool) (x : Bytes) → size_of leaf (take (size_of leaf x) x) ≡ size_of leaf x
size_of-take true x = size_of-take_leaf (size_of true x) x (leaf_size-from x)
size_of-take false x = size_of-take_interior (size_of false x) x (interior_size-from x)

-- A cell of a node is one.
pub cell_bytes-IsCell :
    (usable : ℕ) (p : Bytes) (i : ℕ)
    → IsNode usable p
    → i < count p
    → IsCell (is_leaf p) (cell_bytes p i)
unfolding cell_size
cell_bytes-IsCell usable p i v h =
    size_of-take (is_leaf p) (cell p i) ∙ sym (length-cell_bytes usable p i v h)

-- Where the bytes of a cell stand there is a cell of their size.
pub size_of-found :
    (leaf : Bool) (c x : Bytes) → IsCell leaf c → take (length c) x ≡ c → size_of leaf x ≡ length c
size_of-found leaf c x whole e =
    ap (size_of leaf) (sym (take-append-drop (length c) x) ∙ ap (λ bs. bs ++ drop (length c) x) e)
    ∙ size_of-append leaf c (drop (length c) x) whole
    ∙ whole

pub tabulate_same {ℓ} :
    {A : Type ℓ} (f g : ℕ → A) (n i : ℕ)
    → ((j : ℕ) → i ≤ j → j < i + n → g j ≡ f j)
    → tabulate g n i ≡ tabulate f n i
tabulate_same f g zero i h = refl
tabulate_same f g (suc n) i h =
    ap₂ (◌∷◌) (h i (omega arith) (omega arith))
      (tabulate_same f g n (i + 1) (λ j a b. h j (omega arith) (omega arith)))
