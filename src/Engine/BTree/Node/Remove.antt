-- ===== src/Engine/BTree/Node/Remove.antt =====
-- `Node::remove_cell` of engine/src/engine/btree.cpp.
use mathlib.Core.Path.{ap₂}
use archivum.Base.{
  ℕ, ◌+◌, ◌-◌, ◌*◌, ◌<◌, ◌≤◌, ◌≡◌, refl, sym, ap, ◌∙◌, subst, arith, ltb, ◌==◌, Bool-cases, inl,
  inr, ◌++◌, Bytes, length, take, drop,
}
use archivum.Engine.BTree.Node.{
  get_u16, put_u16, poke, peek, node_type, is_leaf, count, set_count, content_start, frag, set_frag,
  slot, cell, cell_size, size_of, remove_cell,
}
use archivum.Engine.BTree.Node.Memory.{
  length-poke, drop-poke_behind, length-peek, length-poke_word, word_back, word_before, word_behind,
  drop-poke_word, get_u16-poke_before, get_u16-poke_inside, get_u16-peek, first_byte,
  length-put_u16,
}
use archivum.Engine.BTree.Node.Shape.{
  tabulate, tabulate_remove, cell_bytes, cells, total, total_without, length-cell_bytes, IsNode,
}

module _ (usable : ℕ) (p : Bytes) (at : ℕ) (v : IsNode usable p) (inside : at < count p) where
  abbrev freed : Bytes
  freed = poke 6 (put_u16 (frag p + cell_size p at)) p

  abbrev block : Bytes
  block = peek (24 + 2 * (at + 1)) (2 * (count p - at - 1)) freed

  abbrev moved : Bytes
  moved = poke (24 + 2 * at) block freed

  abbrev done : Bytes
  done = poke 2 (put_u16 (count p - 1)) moved

  remove_cell-eq : remove_cell p at ≡ done
  unfolding remove_cell set_frag set_count
  remove_cell-eq = refl

  left : total (take at (cells p) ++ drop (at + 1) (cells p)) + cell_size p at ≡ total (cells p)
  left = omega (
    arith,
    total_without (cell_bytes p) at (count p) 0 inside,
    ap (λ i. length (cell_bytes p i)) first,
    length-cell_bytes usable p at v inside,
  )
    where
      first : 0 + at ≡ at
      first = omega arith

  frag_within : 6 + 2 ≤ length p
  frag_within = omega (arith, v.size_ok, v.directory, v.start_to)

  length-freed : length freed ≡ usable + 4
  length-freed = length-poke_word 6 (frag p + cell_size p at) p frag_within ∙ v.size_ok

  length-block : length block ≡ 2 * (count p - at - 1)
  length-block =
      length-peek (24 + 2 * (at + 1)) (2 * (count p - at - 1)) freed
        (omega (arith, length-freed, inside, v.directory, v.start_to))

  move_within : 24 + 2 * at + length block ≤ length freed
  move_within = omega (arith, length-block, length-freed, inside, v.directory, v.start_to)

  length-moved : length moved ≡ usable + 4
  length-moved = length-poke (24 + 2 * at) block freed move_within ∙ length-freed

  count_within : 2 + 2 ≤ length moved
  count_within = omega (arith, length-moved)

  length-done : length done ≡ usable + 4
  length-done = length-poke_word 2 (count p - 1) moved count_within ∙ length-moved

  old_cells : (a : ℕ) → content_start p ≤ a → drop a done ≡ drop a p
  old_cells a h =
      drop-poke_word 2 (count p - 1) moved count_within a (omega (arith, h, v.directory))
      ∙ drop-poke_behind (24 + 2 * at) block freed move_within a
          (omega (arith, h, length-block, inside, v.directory))
      ∙ drop-poke_word 6 (frag p + cell_size p at) p frag_within a (omega (arith, h, v.directory))

  count-done : count done ≡ count p - 1
  unfolding count
  count-done =
      word_back 2 (count p - 1) moved count_within
        (omega (arith, v.directory, v.start_to, v.usable_fits))

  start_done : content_start done ≡ content_start p
  unfolding content_start
  start_done =
      word_behind 2 (count p - 1) moved count_within 4 (omega arith)
      ∙ get_u16-poke_before (24 + 2 * at) block freed move_within 4 (omega arith)
      ∙ word_before 6 (frag p + cell_size p at) p frag_within 4 (omega arith)

  frag-done : frag done ≡ frag p + cell_size p at
  unfolding frag
  frag-done =
      word_behind 2 (count p - 1) moved count_within 6 (omega arith)
      ∙ get_u16-poke_before (24 + 2 * at) block freed move_within 6 (omega arith)
      ∙ word_back 6 (frag p + cell_size p at) p frag_within
          (omega (arith, v.all_used, left, v.usable_fits))

  type_done : node_type done ≡ node_type p
  unfolding node_type
  type_done =
      first_byte 2 (put_u16 (count p - 1)) moved
        (omega (arith, length-put_u16 (count p - 1), count_within)) (omega arith)
      ∙ first_byte (24 + 2 * at) block freed move_within (omega arith)
      ∙ first_byte 6 (put_u16 (frag p + cell_size p at)) p
          (omega (arith, length-put_u16 (frag p + cell_size p at), frag_within)) (omega arith)

  leaf_done : is_leaf done ≡ is_leaf p
  unfolding is_leaf
  leaf_done = ap (λ t. t == 1) type_done

  directory_word : (i : ℕ) → get_u16 (drop (24 + 2 * i) done) ≡ get_u16 (drop (24 + 2 * i) moved)
  directory_word i = word_behind 2 (count p - 1) moved count_within (24 + 2 * i) (omega arith)

  slot_before : (i : ℕ) → i < at → slot done i ≡ slot p i
  unfolding slot
  slot_before i h =
      directory_word i
      ∙ get_u16-poke_before (24 + 2 * at) block freed move_within (24 + 2 * i) (omega (arith, h))
      ∙ word_behind 6 (frag p + cell_size p at) p frag_within (24 + 2 * i) (omega arith)

  slot_behind : (i : ℕ) → at ≤ i → i + 1 < count p → slot done i ≡ slot p (i + 1)
  unfolding slot
  slot_behind i h l =
      directory_word i
      ∙ ap (λ a. get_u16 (drop a moved)) place
      ∙ get_u16-poke_inside (24 + 2 * at) block freed move_within (2 * (i - at))
          (omega (arith, length-block, h, l))
      ∙ get_u16-peek (24 + 2 * (at + 1)) (2 * (count p - at - 1)) (2 * (i - at)) freed
          (omega (arith, h, l))
      ∙ ap (λ a. get_u16 (drop a freed)) back
      ∙ word_behind 6 (frag p + cell_size p at) p frag_within (24 + 2 * (i + 1)) (omega arith)
    where
      place : 24 + 2 * i ≡ 24 + 2 * at + 2 * (i - at)
      place = omega (arith, h)

      back : 24 + 2 * (at + 1) + 2 * (i - at) ≡ 24 + 2 * (i + 1)
      back = omega (arith, h)

  same_cell : (i j : ℕ) → j < count p → slot done i ≡ slot p j → cell done i ≡ cell p j
  unfolding cell
  same_cell i j h e = ap (λ a. drop a done) e ∙ old_cells (slot p j) (v.slot_from j h)

  same_size : (i j : ℕ) → j < count p → slot done i ≡ slot p j → cell_size done i ≡ cell_size p j
  unfolding cell_size
  same_size i j h e = ap₂ size_of leaf_done (same_cell i j h e)

  same_bytes : (i j : ℕ) → j < count p → slot done i ≡ slot p j → cell_bytes done i ≡ cell_bytes p j
  same_bytes i j h e = ap₂ take (same_size i j h e) (same_cell i j h e)

  cells-done : cells done ≡ take at (cells p) ++ drop (at + 1) (cells p)
  cells-done =
      ap (λ n. tabulate (cell_bytes done) n 0) count-done
      ∙ tabulate_remove (cell_bytes p) (cell_bytes done) at (count p) 0 inside
          (λ j a b. same_bytes j j (omega (arith, b, inside)) (slot_before j (omega (arith, b))))
          (λ j a b.
            same_bytes j (j + 1) (omega (arith, b))
              (slot_behind j (omega (arith, a)) (omega (arith, b))))

  slot_cases :
      (i : ℕ)
      → i < count done
      → (content_start p ≤ slot done i) × (slot done i + cell_size done i ≤ usable)
  slot_cases i h = elim (Bool-cases (ltb i at)) [
    | inl before ↦ old i i (ground (arith, inside)) (slot_before i (ground arith))
    | inr from ↦
        old i (i + 1) (omega (arith, h, count-done))
          (slot_behind i (ground arith) (omega (arith, h, count-done)))
  ]
    where
      old :
          (i j : ℕ)
          → j < count p
          → slot done i ≡ slot p j
          → (content_start p ≤ slot done i) × (slot done i + cell_size done i ≤ usable)
      old i j l e =
          (omega (arith, e, v.slot_from j l), omega (arith, e, same_size i j l e, v.slot_to j l))

  IsNode-done : IsNode usable done
  IsNode-done = record {
    size_ok = length-done;
    usable_fits = v.usable_fits;
    directory = omega (arith, count-done, start_done, v.directory);
    start_to = omega (arith, start_done, v.start_to);
    slot_from = λ i h. omega (arith, start_done, (slot_cases i h).0);
    slot_to = λ i h. (slot_cases i h).1;
    all_used = omega (arith, start_done, frag-done, v.all_used, left, ap total cells-done);
  }

-- Removing a cell takes it out of the cells, counts its bytes as fragments, and keeps the layout of the node
-- and its type.
pub remove_cell-cells :
    (usable : ℕ) (p : Bytes) (at : ℕ)
    → IsNode usable p
    → at < count p
    → IsNode usable (remove_cell p at)
      × (cells (remove_cell p at) ≡ take at (cells p) ++ drop (at + 1) (cells p))
      × (node_type (remove_cell p at) ≡ node_type p)
remove_cell-cells usable p at v inside =
    subst
      (λ q.
        IsNode usable q
        × (cells q ≡ take at (cells p) ++ drop (at + 1) (cells p))
        × (node_type q ≡ node_type p))
      (sym (remove_cell-eq usable p at v inside))
      (
        IsNode-done usable p at v inside,
        cells-done usable p at v inside,
        type_done usable p at v inside,
      )
