-- ===== src/Engine/BTree/Node/Insert.antt =====
-- `Node::insert_cell` of engine/src/engine/btree.cpp.
use archivum.Base.{
  ℕ, ◌+◌, ◌-◌, ◌*◌, ◌%◌, ◌^◌, ◌<◌, ◌≤◌, ◌≡◌, refl, sym, ap, ◌∙◌, subst, arith, ltb, leb, ◌==◌, true,
  false, Bool-cases, inl, inr, ◌∷◌, ◌++◌, Bytes, length, take, drop, take_exact,
}
use mathlib.Core.Path.{ap₂}
use archivum.Engine.BTree.Node.{
  get_u16, put_u16, poke, peek, sub_size, node_type, is_leaf, count, set_count, content_start,
  set_content_start, frag, slot, set_slot, cell, cell_size, size_of, free_space, fits, insert_cell,
}
use archivum.Engine.BTree.Node.Memory.{
  length-poke, drop-poke, drop-poke_behind, length-peek, length-poke_word, word_back, word_before,
  word_behind, drop-poke_word, get_u16-poke_before, get_u16-poke_inside, get_u16-peek, first_byte,
  length-put_u16,
}
use archivum.Engine.BTree.Node.Shape.{
  tabulate, tabulate_insert, cell_bytes, cells, total, total-append, total_split, IsCell, IsNode,
  size_of-append,
}

pub sub_size-le : (a b : ℕ) → b ≤ a → a < 2 ^ 64 → sub_size a b ≡ a - b
unfolding sub_size
sub_size-le a b h l = omega arith

-- What `fits` tests, of a node.
pub fits-room :
    (usable : ℕ) (p : Bytes) (n : ℕ)
    → IsNode usable p
    → fits p n ≡ true
    → 24 + 2 * count p + n + 2 ≤ content_start p
unfolding fits free_space
fits-room usable p n v h = room (
    ap (λ m. leb (n + 2) m)
      (sym (
        sub_size-le (content_start p) (24 + 2 * count p) v.directory
          (omega (arith, v.start_to, v.usable_fits))))
    ∙ h)
  where
    room :
        leb (n + 2) (content_start p - (24 + 2 * count p)) ≡ true
        → 24 + 2 * count p + n + 2 ≤ content_start p
    room e = ground (arith, v.directory)

module _ (usable : ℕ) (p : Bytes) (at : ℕ) (c : Bytes) (v : IsNode usable p) (inside : at ≤ count p)
    (whole : IsCell (is_leaf p) c) (room : 24 + 2 * count p + length c + 2 ≤ content_start p) where
  abbrev off : ℕ
  off = content_start p - length c

  abbrev copied : Bytes
  copied = poke off c p

  abbrev block : Bytes
  block = peek (24 + 2 * at) (2 * (count p - at)) copied

  abbrev moved : Bytes
  moved = poke (24 + 2 * (at + 1)) block copied

  abbrev slotted : Bytes
  slotted = poke (24 + 2 * at) (put_u16 off) moved

  abbrev counted : Bytes
  counted = poke 2 (put_u16 (count p + 1)) slotted

  abbrev done : Bytes
  done = poke 4 (put_u16 off) counted

  off_eq : sub_size (content_start p) (length c) % 2 ^ 16 ≡ off
  off_eq =
      ap (λ n. n % 2 ^ 16)
        (sub_size-le (content_start p) (length c) (omega (arith, room))
          (omega (arith, v.start_to, v.usable_fits)))
      ∙ omega (arith, v.start_to, v.usable_fits)

  insert_cell-eq : insert_cell p at c ≡ done
  unfolding insert_cell set_slot set_count set_content_start
  insert_cell-eq =
      ap
        (λ o. poke 4 (put_u16 o) (
          poke 2 (put_u16 (count p + 1)) (
            poke (24 + 2 * at) (put_u16 o) (
              poke (24 + 2 * (at + 1)) (peek (24 + 2 * at) (2 * (count p - at)) (poke o c p))
                (poke o c p)))))
        off_eq

  end : 24 + 2 * count p + 2 ≤ off
  end = omega (arith, room)

  copy_within : off + length c ≤ length p
  copy_within = omega (arith, room, v.start_to, v.size_ok)

  length-copied : length copied ≡ usable + 4
  length-copied = length-poke off c p copy_within ∙ v.size_ok

  length-block : length block ≡ 2 * (count p - at)
  length-block =
      length-peek (24 + 2 * at) (2 * (count p - at)) copied
        (omega (arith, length-copied, inside, v.directory, v.start_to))

  move_within : 24 + 2 * (at + 1) + length block ≤ length copied
  move_within = omega (arith, length-block, length-copied, inside, end, v.start_to)

  length-moved : length moved ≡ usable + 4
  length-moved = length-poke (24 + 2 * (at + 1)) block copied move_within ∙ length-copied

  slot_within : 24 + 2 * at + 2 ≤ length moved
  slot_within = omega (arith, length-moved, inside, end, v.start_to)

  length-slotted : length slotted ≡ usable + 4
  length-slotted = length-poke_word (24 + 2 * at) off moved slot_within ∙ length-moved

  count_within : 2 + 2 ≤ length slotted
  count_within = omega (arith, length-slotted)

  length-counted : length counted ≡ usable + 4
  length-counted = length-poke_word 2 (count p + 1) slotted count_within ∙ length-slotted

  start_within : 4 + 2 ≤ length counted
  start_within = omega (arith, length-counted, end, v.start_to)

  length-done : length done ≡ usable + 4
  length-done = length-poke_word 4 off counted start_within ∙ length-counted

  -- The cells and what stands behind them.
  drop-done : (a : ℕ) → off ≤ a → drop a done ≡ drop a copied
  drop-done a h =
      drop-poke_word 4 off counted start_within a (omega (arith, h, end))
      ∙ drop-poke_word 2 (count p + 1) slotted count_within a (omega (arith, h, end))
      ∙ drop-poke_word (24 + 2 * at) off moved slot_within a (omega (arith, h, end, inside))
      ∙ drop-poke_behind (24 + 2 * (at + 1)) block copied move_within a
          (omega (arith, length-block, h, end, inside))

  old_cells : (a : ℕ) → content_start p ≤ a → drop a done ≡ drop a p
  old_cells a h =
      drop-done a (omega (arith, h))
      ∙ drop-poke_behind off c p copy_within a (omega (arith, h, room))

  new_cell : drop off done ≡ c ++ drop (off + length c) p
  new_cell = drop-done off (omega arith) ∙ drop-poke off c p copy_within

  -- The header in front of the directory.
  word_of_header : (a : ℕ) → 6 ≤ a → a + 2 ≤ 24 → get_u16 (drop a done) ≡ get_u16 (drop a p)
  word_of_header a l h =
      word_behind 4 off counted start_within a (omega (arith, l))
      ∙ word_behind 2 (count p + 1) slotted count_within a (omega (arith, l))
      ∙ word_before (24 + 2 * at) off moved slot_within a (omega (arith, h))
      ∙ get_u16-poke_before (24 + 2 * (at + 1)) block copied move_within a (omega (arith, h))
      ∙ get_u16-poke_before off c p copy_within a (omega (arith, h, end))

  -- The directory.
  directory_word : (i : ℕ) → get_u16 (drop (24 + 2 * i) done) ≡ get_u16 (drop (24 + 2 * i) slotted)
  directory_word i =
      word_behind 4 off counted start_within (24 + 2 * i) (omega arith)
      ∙ word_behind 2 (count p + 1) slotted count_within (24 + 2 * i) (omega arith)

  pub slot_before : (i : ℕ) → i < at → slot done i ≡ slot p i
  unfolding slot
  slot_before i h =
      directory_word i
      ∙ word_before (24 + 2 * at) off moved slot_within (24 + 2 * i) (omega (arith, h))
      ∙ get_u16-poke_before (24 + 2 * (at + 1)) block copied move_within (24 + 2 * i)
          (omega (arith, h))
      ∙ get_u16-poke_before off c p copy_within (24 + 2 * i) (omega (arith, h, inside, end))

  pub slot_here : slot done at ≡ off
  unfolding slot
  slot_here =
      directory_word at
      ∙ word_back (24 + 2 * at) off moved slot_within (omega (arith, v.start_to, v.usable_fits))

  pub slot_behind : (i : ℕ) → at ≤ i → i < count p → slot done (i + 1) ≡ slot p i
  unfolding slot
  slot_behind i h l =
      directory_word (i + 1)
      ∙ word_behind (24 + 2 * at) off moved slot_within (24 + 2 * (i + 1)) (omega (arith, h))
      ∙ ap (λ a. get_u16 (drop a moved)) place
      ∙ get_u16-poke_inside (24 + 2 * (at + 1)) block copied move_within (2 * (i - at))
          (omega (arith, length-block, h, l))
      ∙ get_u16-peek (24 + 2 * at) (2 * (count p - at)) (2 * (i - at)) copied (omega (arith, h, l))
      ∙ ap (λ a. get_u16 (drop a copied)) back
      ∙ get_u16-poke_before off c p copy_within (24 + 2 * i) (omega (arith, l, end))
    where
      place : 24 + 2 * (i + 1) ≡ 24 + 2 * (at + 1) + 2 * (i - at)
      place = omega (arith, h)

      back : 24 + 2 * at + 2 * (i - at) ≡ 24 + 2 * i
      back = omega (arith, h)

  count-done : count done ≡ count p + 1
  unfolding count
  count-done =
      word_before 4 off counted start_within 2 (omega arith)
      ∙ word_back 2 (count p + 1) slotted count_within
          (omega (arith, end, v.start_to, v.usable_fits))

  start_done : content_start done ≡ off
  unfolding content_start
  start_done = word_back 4 off counted start_within (omega (arith, v.start_to, v.usable_fits))

  frag-done : frag done ≡ frag p
  unfolding frag
  frag-done = word_of_header 6 (omega arith) (omega arith)

  pub type_done : node_type done ≡ node_type p
  unfolding node_type
  type_done =
      first_byte 4 (put_u16 off) counted (omega (arith, length-put_u16 off, start_within))
        (omega arith)
      ∙ first_byte 2 (put_u16 (count p + 1)) slotted
          (omega (arith, length-put_u16 (count p + 1), count_within)) (omega arith)
      ∙ first_byte (24 + 2 * at) (put_u16 off) moved
          (omega (arith, length-put_u16 off, slot_within)) (omega arith)
      ∙ first_byte (24 + 2 * (at + 1)) block copied move_within (omega arith)
      ∙ first_byte off c p copy_within (omega (arith, end))

  leaf_done : is_leaf done ≡ is_leaf p
  unfolding is_leaf
  leaf_done = ap (λ t. t == 1) type_done

  -- A cell of the node before, from its slot.
  same_cell : (i j : ℕ) → j < count p → slot done i ≡ slot p j → cell done i ≡ cell p j
  unfolding cell
  same_cell i j h e = ap (λ a. drop a done) e ∙ old_cells (slot p j) (v.slot_from j h)

  same_size : (i j : ℕ) → j < count p → slot done i ≡ slot p j → cell_size done i ≡ cell_size p j
  unfolding cell_size
  same_size i j h e = ap₂ size_of leaf_done (same_cell i j h e)

  same_bytes : (i j : ℕ) → j < count p → slot done i ≡ slot p j → cell_bytes done i ≡ cell_bytes p j
  same_bytes i j h e = ap₂ take (same_size i j h e) (same_cell i j h e)

  cell_here : cell done at ≡ c ++ drop (off + length c) p
  unfolding cell
  cell_here = ap (λ a. drop a done) slot_here ∙ new_cell

  size_here : cell_size done at ≡ length c
  unfolding cell_size
  size_here =
      ap₂ size_of leaf_done cell_here
      ∙ size_of-append (is_leaf p) c (drop (off + length c) p) whole
      ∙ whole

  bytes_here : cell_bytes done at ≡ c
  bytes_here = ap₂ take size_here cell_here ∙ take_exact c (drop (off + length c) p) refl

  cells-done : cells done ≡ take at (cells p) ++ c ∷ drop at (cells p)
  cells-done =
      ap (λ n. tabulate (cell_bytes done) n 0) count-done
      ∙ tabulate_insert (cell_bytes p) (cell_bytes done) c at (count p) 0 inside
          (λ j a b. same_bytes j j (omega (arith, b, inside)) (slot_before j (omega (arith, b))))
          bytes_here_0
          (λ j a b.
            same_bytes (j + 1) j (omega (arith, b))
              (slot_behind j (omega (arith, a)) (omega (arith, b))))
    where
      bytes_here_0 : cell_bytes done (0 + at) ≡ c
      bytes_here_0 = ap (cell_bytes done) (omega arith) ∙ bytes_here

  -- Where a slot of the new node points.
  slot_cases :
      (i : ℕ) → i < count done → (off ≤ slot done i) × (slot done i + cell_size done i ≤ usable)
  slot_cases i h = elim (Bool-cases (ltb i at)) [
    | inl before ↦ old i i (ground (arith, inside)) (slot_before i (ground arith))
    | inr from ↦ elim (Bool-cases (i == at)) [
      | inl here ↦
          subst (λ j. (off ≤ slot done j) × (slot done j + cell_size done j ≤ usable))
            (sym (same here))
            (omega (arith, slot_here), omega (arith, slot_here, size_here, v.start_to, room))
      | inr behind ↦
          subst (λ j. (off ≤ slot done j) × (slot done j + cell_size done j ≤ usable))
            (less from behind)
            (old (i - 1 + 1) (i - 1) (later from behind)
              (slot_behind (i - 1) (ground arith) (later from behind)))
    ]
  ]
    where
      old :
          (i j : ℕ)
          → j < count p
          → slot done i ≡ slot p j
          → (off ≤ slot done i) × (slot done i + cell_size done i ≤ usable)
      old i j l e =
          (omega (arith, e, v.slot_from j l), omega (arith, e, same_size i j l e, v.slot_to j l))

      same : (i == at) ≡ true → i ≡ at
      same e = ground arith

      less : ltb i at ≡ false → (i == at) ≡ false → i - 1 + 1 ≡ i
      less a b = ground arith

      later : ltb i at ≡ false → (i == at) ≡ false → i - 1 < count p
      later a b = ground (arith, h, count-done)

  IsNode-done : IsNode usable done
  IsNode-done = record {
    size_ok = length-done;
    usable_fits = v.usable_fits;
    directory = omega (arith, count-done, start_done, end);
    start_to = omega (arith, start_done, v.start_to);
    slot_from = λ i h. omega (arith, start_done, (slot_cases i h).0);
    slot_to = λ i h. (slot_cases i h).1;
    all_used = omega (arith, start_done, frag-done, v.all_used, room, sum);
  }
    where
      sum : total (cells done) ≡ length c + total (cells p)
      sum =
          ap total cells-done
          ∙ total-append (take at (cells p)) (c ∷ drop at (cells p))
          ∙ omega (arith, total_split at (cells p))

-- Inserting a cell that fits puts it among the cells at its slot, keeps the layout of the node, its type
-- and its count of fragments.
pub insert_cell-cells :
    (usable : ℕ) (p : Bytes) (at : ℕ) (c : Bytes)
    → IsNode usable p
    → at ≤ count p
    → IsCell (is_leaf p) c
    → fits p (length c) ≡ true
    → IsNode usable (insert_cell p at c)
      × (cells (insert_cell p at c) ≡ take at (cells p) ++ c ∷ drop at (cells p))
      × (node_type (insert_cell p at c) ≡ node_type p)
      × (frag (insert_cell p at c) ≡ frag p)
insert_cell-cells usable p at c v inside whole h =
    subst
      (λ q.
        IsNode usable q
        × (cells q ≡ take at (cells p) ++ c ∷ drop at (cells p))
        × (node_type q ≡ node_type p)
        × (frag q ≡ frag p))
      (sym (insert_cell-eq usable p at c v inside whole room))
      (
        IsNode-done usable p at c v inside whole room,
        cells-done usable p at c v inside whole room,
        type_done usable p at c v inside whole room,
        frag-done usable p at c v inside whole room,
      )
  where
    room : 24 + 2 * count p + length c + 2 ≤ content_start p
    room = fits-room usable p (length c) v h

pub room-fits :
    (usable : ℕ) (p : Bytes) (n : ℕ)
    → IsNode usable p
    → 24 + 2 * count p + n + 2 ≤ content_start p
    → fits p n ≡ true
unfolding fits free_space
room-fits usable p n v h =
    ap (λ m. leb (n + 2) m)
      (sub_size-le (content_start p) (24 + 2 * count p) v.directory
        (omega (arith, v.start_to, v.usable_fits)))
    ∙ room
  where
    room : leb (n + 2) (content_start p - (24 + 2 * count p)) ≡ true
    room = ground (arith, h)
