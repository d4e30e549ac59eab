-- ===== src/Engine/BTree/Node/Links.antt =====
-- `set_right` and `set_prev` of the node of engine/src/engine/btree.cpp: the links of a node stand in its header.
use mathlib.Core.Path.{ap₂}
use archivum.Base.{ℕ, ◌+◌, ◌*◌, ◌^◌, ◌<◌, ◌≤◌, ◌≡◌, ◌==◌, ap, ◌∙◌, arith, Bytes, length, take, drop}
use archivum.LittleEndian.{put_u64, get_u64}
use archivum.LittleEndian.Laws.{length-put_u64, get_u64-put_u64}
use archivum.Engine.BTree.Node.{
  poke, node_type, is_leaf, count, content_start, frag, right, set_right, prev, set_prev, slot,
  cell, cell_size, size_of,
}
use archivum.Engine.BTree.Node.Memory.{
  length-poke, drop-poke, drop-poke_behind, get_u16-poke_before, get_u16-poke_behind, first_byte,
}
use archivum.Engine.BTree.Node.Shape.{tabulate, tabulate_same, cell_bytes, cells, total, IsNode}

-- A write between the counts and the directory.
module _ (usable : ℕ) (p : Bytes) (off : ℕ) (bs : Bytes) (v : IsNode usable p) (from : 8 ≤ off)
    (to : off + length bs ≤ 24) where
  abbrev done : Bytes
  done = poke off bs p

  within : off + length bs ≤ length p
  within = omega (arith, to, v.size_ok, v.directory, v.start_to)

  count-done : count done ≡ count p
  unfolding count
  count-done = get_u16-poke_before off bs p within 2 (omega (arith, from))

  start_done : content_start done ≡ content_start p
  unfolding content_start
  start_done = get_u16-poke_before off bs p within 4 (omega (arith, from))

  pub frag_kept : frag done ≡ frag p
  unfolding frag
  frag_kept = get_u16-poke_before off bs p within 6 (omega (arith, from))

  pub type_kept : node_type done ≡ node_type p
  unfolding node_type
  type_kept = first_byte off bs p within (omega (arith, from))

  leaf_done : is_leaf done ≡ is_leaf p
  unfolding is_leaf
  leaf_done = ap (λ t. t == 1) type_kept

  slot-done : (i : ℕ) → slot done i ≡ slot p i
  unfolding slot
  slot-done i = get_u16-poke_behind off bs p within (24 + 2 * i) (omega (arith, to))

  cell-done : (i : ℕ) → i < count p → cell done i ≡ cell p i
  unfolding cell
  cell-done i h =
      ap (λ a. drop a done) (slot-done i)
      ∙ drop-poke_behind off bs p within (slot p i)
          (omega (arith, to, v.slot_from i h, v.directory))

  size_done : (i : ℕ) → i < count p → cell_size done i ≡ cell_size p i
  unfolding cell_size
  size_done i h = ap₂ size_of leaf_done (cell-done i h)

  pub cells_kept : cells done ≡ cells p
  cells_kept =
      ap (λ n. tabulate (cell_bytes done) n 0) count-done
      ∙ tabulate_same (cell_bytes p) (cell_bytes done) (count p) 0
          (λ j a b. ap₂ take (size_done j (omega (arith, b))) (cell-done j (omega (arith, b))))

  pub IsNode-kept : IsNode usable done
  IsNode-kept = record {
    size_ok = length-poke off bs p within ∙ v.size_ok;
    usable_fits = v.usable_fits;
    directory = omega (arith, count-done, start_done, v.directory);
    start_to = omega (arith, start_done, v.start_to);
    slot_from =
        λ i h. omega (arith, start_done, slot-done i, v.slot_from i (omega (arith, h, count-done)));
    slot_to = λ i h. omega (
      arith,
      slot-done i,
      size_done i (omega (arith, h, count-done)),
      v.slot_to i (omega (arith, h, count-done)),
    );
    all_used = omega (arith, start_done, frag_kept, v.all_used, ap total cells_kept);
  }

module _ (usable : ℕ) (p : Bytes) (v : IsNode usable p) (n : ℕ) (fits : n < 2 ^ 64) where
  right_within : 8 + length (put_u64 n) ≤ length p
  right_within = omega (arith, length-put_u64 n, v.size_ok, v.directory, v.start_to)

  prev_within : 16 + length (put_u64 n) ≤ length p
  prev_within = omega (arith, length-put_u64 n, v.size_ok, v.directory, v.start_to)

  pub right-set_right : right (set_right p n) ≡ n
  unfolding right set_right
  right-set_right = ap get_u64 (drop-poke 8 (put_u64 n) p right_within) ∙ get_u64-put_u64 n _ fits

  pub prev-set_right : prev (set_right p n) ≡ prev p
  unfolding prev set_right
  prev-set_right =
      ap get_u64
        (drop-poke_behind 8 (put_u64 n) p right_within 16 (omega (arith, length-put_u64 n)))

  pub prev-set_prev : prev (set_prev p n) ≡ n
  unfolding prev set_prev
  prev-set_prev = ap get_u64 (drop-poke 16 (put_u64 n) p prev_within) ∙ get_u64-put_u64 n _ fits
