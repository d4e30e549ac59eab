-- ===== src/Engine/BTree/Node/Pack.antt =====
-- The loops of `Node::defragment` of engine/src/engine/btree.cpp.
use archivum.Base.{
  ℕ, zero, suc, ◌+◌, ◌-◌, ◌*◌, ◌%◌, ◌^◌, ◌<◌, ◌≤◌, ◌≡◌, refl, sym, ap, ◌∙◌, subst, arith, ◌==◌,
  true, Bool-cases, inl, inr, List, [], ◌∷◌, Bytes, length, take, drop, take_exact,
}
use archivum.Engine.BTree.Node.{
  get_u16, get_u8, put_u16, poke, peek, sub_size, count, slot, set_slot, set_slots, pack, cell_size,
}
use archivum.Engine.BTree.Node.Memory.{
  length-poke, drop-poke, drop-poke_behind, length-poke_word, word_back, word_before,
  drop-poke_word, first_byte, length-put_u16,
}
use archivum.Engine.BTree.Node.Shape.{tabulate, cell_bytes, total, length-cell_bytes, IsNode}
use archivum.Engine.BTree.Node.Insert.{sub_size-le}

-- The cells from `i` on stand in the buffer at these offsets, all from `start` on.
abbrev pub Packed : ℕ → Bytes → ℕ → Bytes → ℕ → List ℕ → Type 0
Packed usable p i filled start [] = Unit {0}
Packed usable p i filled start (o ∷ os) =
    (start ≤ o)
    × (o + cell_size p i ≤ usable)
    × (peek o (cell_size p i) filled ≡ cell_bytes p i)
    × Packed usable p (i + 1) filled start os

-- What the loop over the cells gives.
pub record IsPacked (usable : ℕ) (p : Bytes) (more i off : ℕ) (scratch : Bytes)
    (r : Bytes × ℕ × List ℕ) : Type 0 where
  pub size_ok : length r.0 ≡ usable
  pub start_is : r.1 + total (tabulate (cell_bytes p) more i) ≡ off
  pub keeps : (a : ℕ) → off ≤ a → drop a r.0 ≡ drop a scratch
  pub offsets : length r.2 ≡ more
  pub packed : Packed usable p i r.0 r.1 r.2

-- One round of the loop.
module _ (usable : ℕ) (p : Bytes) (more i off : ℕ) (scratch : Bytes) (v : IsNode usable p)
    (n : i + suc more ≡ count p) (size : length scratch ≡ usable) (to : off ≤ usable)
    (room : total (tabulate (cell_bytes p) (suc more) i) ≤ off) where
  abbrev o : ℕ
  o = sub_size off (cell_size p i)

  has_size : length (cell_bytes p i) ≡ cell_size p i
  has_size = length-cell_bytes usable p i v (omega (arith, n))

  o_eq : o ≡ off - cell_size p i
  o_eq =
      sub_size-le off (cell_size p i) (omega (arith, room, has_size))
        (omega (arith, to, v.usable_fits))

  fits_word : o % 2 ^ 16 ≡ o
  fits_word = omega (arith, o_eq, to, v.usable_fits)

  within : o + length (cell_bytes p i) ≤ length scratch
  within = omega (arith, o_eq, has_size, room, to, size)

  abbrev filled : Bytes
  filled = poke o (cell_bytes p i) scratch

  abbrev later : Bytes × ℕ × List ℕ
  later = pack p more (i + 1) filled o

  length-filled : length filled ≡ usable
  length-filled = length-poke o (cell_bytes p i) scratch within ∙ size

  pack_round :
      IsPacked usable p more (i + 1) o filled later
      → IsPacked usable p (suc more) i off scratch (later.0, later.1, o % 2 ^ 16 ∷ later.2)
  pack_round rest = record {
    size_ok = rest.size_ok;
    start_is = omega (arith, rest.start_is, o_eq, has_size, room);
    keeps = λ a h.
        rest.keeps a (omega (arith, h, o_eq))
        ∙ drop-poke_behind o (cell_bytes p i) scratch within a
            (omega (arith, h, o_eq, has_size, room));
    offsets = ap suc rest.offsets;
    packed =
        subst (λ m. Packed usable p i later.0 later.1 (m ∷ later.2)) (sym fits_word)
          (
            omega (arith, rest.start_is),
            omega (arith, o_eq, has_size, room, to),
            here,
            rest.packed,
          );
  }
    where
      here : peek o (cell_size p i) later.0 ≡ cell_bytes p i
      here =
          ap (take (cell_size p i))
            (rest.keeps o (omega arith) ∙ drop-poke o (cell_bytes p i) scratch within)
          ∙ take_exact (cell_bytes p i) (drop (o + length (cell_bytes p i)) scratch) has_size

pub pack-IsPacked :
    (usable : ℕ) (p : Bytes) (more i off : ℕ) (scratch : Bytes)
    → IsNode usable p
    → i + more ≡ count p
    → length scratch ≡ usable
    → off ≤ usable
    → total (tabulate (cell_bytes p) more i) ≤ off
    → IsPacked usable p more i off scratch (pack p more i scratch off)
unfolding pack
pack-IsPacked usable p zero i off scratch v n size to room = record {
  size_ok = size;
  start_is = omega arith;
  keeps = λ a h. refl;
  offsets = refl;
  packed = tt;
}
pack-IsPacked usable p (suc more) i off scratch v n size to room =
    pack_round usable p more i off scratch v n size to room (
      pack-IsPacked usable p more (i + 1) _ _ v (omega (arith, n))
        (length-filled usable p more i off scratch v n size to room)
        (omega (arith, o_eq usable p more i off scratch v n size to room, to))
        (omega (
          arith,
          o_eq usable p more i off scratch v n size to room,
          has_size usable p more i off scratch v n size to room,
          room,
        )))

-- The offsets stand in the directory from slot `i` on.
abbrev pub Slots : Bytes → ℕ → List ℕ → Type 0
Slots q i [] = Unit {0}
Slots q i (o ∷ os) = (slot q i ≡ o) × Slots q (i + 1) os

abbrev pub Words : List ℕ → Type 0
Words [] = Unit {0}
Words (o ∷ os) = (o < 2 ^ 16) × Words os

-- The second loop writes the directory and nothing else.
pub record IsDirectory (p : Bytes) (i : ℕ) (offs : List ℕ) (q : Bytes) : Type 0 where
  pub size_ok : length q ≡ length p
  pub slots : Slots q i offs
  pub before : (a : ℕ) → a + 2 ≤ 24 + 2 * i → get_u16 (drop a q) ≡ get_u16 (drop a p)
  pub behind : (a : ℕ) → 24 + 2 * (i + length offs) ≤ a → drop a q ≡ drop a p
  pub first : get_u8 q ≡ get_u8 p

pub set_slots-IsDirectory :
    (p : Bytes) (i : ℕ) (offs : List ℕ)
    → 24 + 2 * (i + length offs) ≤ length p
    → Words offs
    → IsDirectory p i offs (set_slots p i offs)
unfolding set_slots set_slot slot
set_slots-IsDirectory p i [] h w = record {
  size_ok = refl;
  slots = tt;
  before = λ a l. refl;
  behind = λ a l. refl;
  first = refl;
}
set_slots-IsDirectory p i (o ∷ os) h w =
    let rest =
      set_slots-IsDirectory (poke (24 + 2 * i) (put_u16 o) p) (i + 1) os
        (omega (arith, h, length-poke_word (24 + 2 * i) o p (omega (arith, h)))) w.1 in
    record {
      size_ok = rest.size_ok ∙ length-poke_word (24 + 2 * i) o p (omega (arith, h));
      slots = (
        rest.before (24 + 2 * i) (omega arith) ∙ word_back (24 + 2 * i) o p (omega (arith, h)) w.0,
        rest.slots,
      );
      before = λ a l.
          rest.before a (omega (arith, l)) ∙ word_before (24 + 2 * i) o p (omega (arith, h)) a l;
      behind = λ a l.
          rest.behind a (omega (arith, l))
          ∙ drop-poke_word (24 + 2 * i) o p (omega (arith, h)) a (omega (arith, l));
      first =
          rest.first
          ∙ first_byte (24 + 2 * i) (put_u16 o) p (omega (arith, h, length-put_u16 o))
              (omega arith);
    }

-- Both loops together, at one slot.
pub Packed-at :
    (usable : ℕ) (p q filled : Bytes) (start i : ℕ) (offs : List ℕ) (k : ℕ)
    → Packed usable p i filled start offs
    → Slots q i offs
    → i ≤ k
    → k < i + length offs
    → (start ≤ slot q k)
      × (slot q k + cell_size p k ≤ usable)
      × (peek (slot q k) (cell_size p k) filled ≡ cell_bytes p k)
Packed-at usable p q filled start i [] k s t h l = absurd (omega arith)
Packed-at usable p q filled start i (o ∷ os) k s t h l = elim (Bool-cases (i == k)) [
  | inl here ↦
      subst
        (λ j.
          (start ≤ slot q j)
          × (slot q j + cell_size p j ≤ usable)
          × (peek (slot q j) (cell_size p j) filled ≡ cell_bytes p j))
        (same here)
        (
          omega (arith, s.0, t.0),
          omega (arith, s.1, t.0),
          ap (λ m. peek m (cell_size p i) filled) t.0 ∙ s.2,
        )
  | inr later ↦ Packed-at usable p q filled start (i + 1) os k s.3 t.1 (ground arith) (omega arith)
]
  where
    same : (i == k) ≡ true → i ≡ k
    same e = ground arith

pub Packed-Words :
    (usable : ℕ) (p filled : Bytes) (start i : ℕ) (offs : List ℕ)
    → usable < 2 ^ 16
    → Packed usable p i filled start offs
    → Words offs
Packed-Words usable p filled start i [] h s = tt
Packed-Words usable p filled start i (o ∷ os) h s =
    (omega (arith, s.1), Packed-Words usable p filled start (i + 1) os h s.3)
