-- ===== src/Engine/BTree/Leaf/Split.antt =====
-- The split of a leaf by engine/src/engine/btree.cpp: where it falls, and that both halves have room.
use native.Mathlib.Nat.{zero-add}
use archivum.Base.{
  ℕ, zero, suc, ◌+◌, ◌/◌, ◌<◌, ◌≤◌, ◌≡◌, ◌⊎◌, inl, inr, refl, sym, ap, ◌∙◌, subst, arith, ltb, ◌==◌,
  Bool-cases, if◌then◌else◌, List, [], ◌∷◌, ◌++◌, Bytes, All, length, take, drop, take-append-drop,
}
use archivum.Engine.BTree.Leaf.{total_bytes, find_split, split_of}

-- Every cell is at most this long.
abbrev pub AllShort : ℕ → List Bytes → Type 0
AllShort most cs = All (λ c. length c + 2 ≤ most) cs

pub total_bytes-append :
    (xs ys : List Bytes) → total_bytes (xs ++ ys) ≡ total_bytes xs + total_bytes ys
unfolding total_bytes
total_bytes-append [] ys = omega arith
total_bytes-append (x ∷ xs) ys = omega (arith, total_bytes-append xs ys)

-- Where the loop stops, of the cells that are left: `n` of them go to the left half, which is then less than
-- half full, and the right half has less than that and one cell too much.
record Stops (cs : List Bytes) (half acc most n : ℕ) : Type 0 where
  left : (acc + total_bytes (take n cs) < half) ⊎ (n ≡ 0)
  right : (half ≤ acc + total_bytes (take n cs) + most) ⊎ (total_bytes (drop n cs) ≤ most)
  inside : n + 1 ≤ length cs

none_taken : (n : ℕ) (cs : List Bytes) → n ≡ 0 → total_bytes (take n cs) ≡ 0
unfolding total_bytes
none_taken n cs e = ap (λ m. total_bytes (take m cs)) e

-- The loop goes on behind a cell.
widen :
    (c : Bytes) (cs : List Bytes) (half acc most n : ℕ)
    → acc + length c + 2 < half
    → Stops cs half (acc + length c + 2) most n
    → Stops (c ∷ cs) half acc most (suc n)
unfolding total_bytes
widen c cs half acc most n go s = record {
  left = elim s.left [
    | inl l ↦ inl (omega (arith, l))
    | inr z ↦ inl (omega (arith, go, none_taken n cs z))
  ];
  right = elim s.right [ inl l ↦ inl (omega (arith, l)) | inr l ↦ inr l ];
  inside = omega (arith, s.inside);
}

find_split-Stops :
    (cs : List Bytes) (half split acc most : ℕ)
    → 0 < length cs
    → AllShort most cs
    → (n : ℕ) × (find_split cs half split acc ≡ split + n) × Stops cs half acc most n
unfolding find_split total_bytes
find_split-Stops [] half split acc most h a = absurd (omega arith)
find_split-Stops (c ∷ []) half split acc most h a = (
  0,
  omega arith,
  record { left = inr refl; right = inr (omega (arith, a.0)); inside = omega arith },
)
find_split-Stops (c ∷ next ∷ cs) half split acc most h a =
    elim (Bool-cases (ltb (acc + length c + 2) half)) [
      | inr stop ↦ (
        0,
        rw stop (omega arith),
        record { left = inr refl; right = inl (ground (arith, a.0)); inside = omega arith },
      )
      | inl go ↦
          let (n, e, s) =
            find_split-Stops (next ∷ cs) half (split + 1) (acc + length c + 2) most (omega arith)
              a.1 in
          (suc n, rw go (e ∙ omega arith), widen c (next ∷ cs) half acc most n (ground arith) s)
    ]

-- A split for which both halves are filled and have room.
pub record IsSplit (room : ℕ) (cs : List Bytes) (n : ℕ) : Type 0 where
  pub some_left : 1 ≤ n
  pub some_right : n + 1 ≤ length cs
  pub left_fits : total_bytes (take n cs) ≤ room
  pub right_fits : total_bytes (drop n cs) ≤ room

both_sides :
    (n : ℕ) (cs : List Bytes) → total_bytes (take n cs) + total_bytes (drop n cs) ≡ total_bytes cs
both_sides n cs =
    sym (total_bytes-append (take n cs) (drop n cs)) ∙ ap total_bytes (take-append-drop n cs)

first_short : (most : ℕ) (cs : List Bytes) → AllShort most cs → total_bytes (take 1 cs) ≤ most
unfolding total_bytes
first_short most [] a = omega arith
first_short most (c ∷ cs) a = omega (arith, a.0)

choose :
    (room : ℕ) (cs : List Bytes) (n : ℕ)
    → 8 ≤ room
    → 2 ≤ length cs
    → AllShort (room / 4) cs
    → total_bytes cs ≤ room + room / 4
    → Stops cs (total_bytes cs / 2) 0 (room / 4) n
    → IsSplit room cs (if n == 0 then 1 else n)
choose room cs zero h two short all s = record {
  some_left = omega arith;
  some_right = omega (arith, two);
  left_fits = omega (arith, first_short (room / 4) cs short);
  right_fits = elim s.right [
    | inl l ↦ omega (arith, l, both_sides 1 cs, h, none_taken 0 cs refl)
    | inr l ↦ omega (arith, l, both_sides 1 cs, both_sides 0 cs, none_taken 0 cs refl)
  ];
}
choose room cs (suc n) h two short all s = subst (IsSplit room cs) (sym pick) (record {
  some_left = omega arith;
  some_right = s.inside;
  left_fits = elim s.left [ inl l ↦ omega (arith, l, all, h) | inr z ↦ absurd (omega (arith, z)) ];
  right_fits = elim s.right [
    | inl l ↦ elim s.left [
      | inl m ↦ omega (arith, l, all, h, both_sides (suc n) cs)
      | inr z ↦ absurd (omega (arith, z))
    ]
    | inr l ↦ omega (arith, l, h)
  ];
})
  where
    pick : (if suc n == 0 then 1 else suc n) ≡ suc n
    pick = ground arith

-- The cells of a leaf and one more, none of them longer than a quarter of the room of a page, are split
-- into two halves that are both filled and both have room in a page.
pub split_of-IsSplit :
    (room : ℕ) (cs : List Bytes)
    → 8 ≤ room
    → 2 ≤ length cs
    → AllShort (room / 4) cs
    → total_bytes cs ≤ room + room / 4
    → IsSplit room cs (split_of cs)
unfolding split_of
split_of-IsSplit room cs h two short all =
    let (n, e, s) = find_split-Stops cs (total_bytes cs / 2) 0 0 (room / 4) (omega arith) short in
    subst (λ m. IsSplit room cs (if m == 0 then 1 else m)) (sym (e ∙ zero-add n))
      (choose room cs n h two short all s)
