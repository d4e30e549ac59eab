-- ===== src/Engine/BTree/Node/Defragment.antt =====
-- `Node::defragment` of engine/src/engine/btree.cpp.
use archivum.Base.{
  ℕ, ◌+◌, ◌-◌, ◌*◌, ◌<◌, ◌≤◌, ◌≡◌, refl, sym, ap, ◌∙◌, subst, arith, leb, ◌==◌, List, Bytes, length,
  take, drop, length-replicate, replicate, drop_add,
}
use archivum.Engine.BTree.Node.{
  put_u16, poke, peek, node_type, is_leaf, count, content_start, set_content_start, frag, set_frag,
  slot, set_slots, pack, cell, cell_size, size_of, free_space, fits, fits_after_defrag, defragment,
}
use archivum.Engine.BTree.Node.Memory.{
  length-poke, peek-poke_inside, length-peek, peek-take, length-poke_word, word_back, word_before,
  word_behind, drop-poke_word, get_u16-poke_before, first_byte, length-put_u16,
}
use archivum.Engine.BTree.Node.Shape.{
  tabulate, tabulate_same, cell_bytes, cells, total, IsNode, length-cell_bytes, cell_bytes-IsCell,
  size_of-found,
}
use archivum.Engine.BTree.Node.Insert.{sub_size-le}
use archivum.Engine.BTree.Node.Pack.{
  IsPacked, pack-IsPacked, IsDirectory, set_slots-IsDirectory, Packed-at, Packed-Words,
}

module _ (usable : ℕ) (p : Bytes) (v : IsNode usable p) where
  abbrev result : Bytes × ℕ × List ℕ
  result = pack p (count p) 0 (replicate usable 0) usable

  used : total (cells p) ≤ usable
  used = omega (arith, v.all_used)

  packed : IsPacked usable p (count p) 0 usable (replicate usable 0) result
  packed =
      pack-IsPacked usable p (count p) 0 usable (replicate usable 0) v (omega arith)
        (length-replicate usable 0) (omega arith) used

  abbrev off : ℕ
  off = result.1

  off_eq : off ≡ content_start p + frag p
  off_eq = omega (arith, packed.start_is, v.all_used)

  abbrev block : Bytes
  block = peek off (usable - off) result.0

  length-block : length block ≡ usable - off
  length-block =
      length-peek off (usable - off) result.0 (omega (arith, packed.size_ok, packed.start_is))

  abbrev copied : Bytes
  copied = poke off block p

  copy_within : off + length block ≤ length p
  copy_within = omega (arith, length-block, v.size_ok, packed.start_is)

  length-copied : length copied ≡ usable + 4
  length-copied = length-poke off block p copy_within ∙ v.size_ok

  abbrev slotted : Bytes
  slotted = set_slots copied 0 result.2

  set : IsDirectory copied 0 result.2 slotted
  set =
      set_slots-IsDirectory copied 0 result.2
        (omega (arith, packed.offsets, length-copied, v.directory, v.start_to))
        (Packed-Words usable p result.0 off 0 result.2 v.usable_fits packed.packed)

  length-slotted : length slotted ≡ usable + 4
  length-slotted = set.size_ok ∙ length-copied

  abbrev started : Bytes
  started = poke 4 (put_u16 off) slotted

  start_within : 4 + 2 ≤ length slotted
  start_within = omega (arith, length-slotted, v.directory, v.start_to)

  length-started : length started ≡ usable + 4
  length-started = length-poke_word 4 off slotted start_within ∙ length-slotted

  abbrev done : Bytes
  done = poke 6 (put_u16 0) started

  frag_within : 6 + 2 ≤ length started
  frag_within = omega (arith, length-started, v.directory, v.start_to)

  defragment-eq : defragment usable p ≡ done
  unfolding defragment set_content_start set_frag
  defragment-eq = refl

  length-done : length done ≡ usable + 4
  length-done = length-poke_word 6 0 started frag_within ∙ length-started

  -- What stands from `off` on is what the scratch buffer had there.
  peek-done : (a n : ℕ) → off ≤ a → a + n ≤ usable → peek a n done ≡ peek a n result.0
  peek-done a n h l =
      ap (take n) (
        drop-poke_word 6 0 started frag_within a (omega (arith, h, off_eq, v.directory))
        ∙ drop-poke_word 4 off slotted start_within a (omega (arith, h, off_eq, v.directory))
        ∙ set.behind a (omega (arith, packed.offsets, h, off_eq, v.directory)))
      ∙ ap (λ m. peek m n copied) place
      ∙ peek-poke_inside off block p copy_within (a - off) n (omega (arith, length-block, h, l))
      ∙ peek-take (a - off) n (usable - off) (drop off result.0) (omega (arith, h, l))
      ∙ ap (take n) (sym (drop_add off (a - off) result.0))
      ∙ ap (λ m. peek m n result.0) (sym place)
    where
      place : a ≡ off + (a - off)
      place = omega (arith, h)

  count-done : count done ≡ count p
  unfolding count
  count-done =
      word_before 6 0 started frag_within 2 (omega arith)
      ∙ word_before 4 off slotted start_within 2 (omega arith)
      ∙ set.before 2 (omega arith)
      ∙ get_u16-poke_before off block p copy_within 2 (omega (arith, off_eq, v.directory))

  start_done : content_start done ≡ off
  unfolding content_start
  start_done =
      word_before 6 0 started frag_within 4 (omega arith)
      ∙ word_back 4 off slotted start_within (omega (arith, packed.start_is, v.usable_fits))

  frag-done : frag done ≡ 0
  unfolding frag
  frag-done = word_back 6 0 started frag_within (omega arith)

  type_done : node_type done ≡ node_type p
  unfolding node_type
  type_done =
      first_byte 6 (put_u16 0) started (omega (arith, length-put_u16 0, frag_within)) (omega arith)
      ∙ first_byte 4 (put_u16 off) slotted (omega (arith, length-put_u16 off, start_within))
          (omega arith)
      ∙ set.first
      ∙ first_byte off block p copy_within (omega (arith, off_eq, v.directory))

  leaf_done : is_leaf done ≡ is_leaf p
  unfolding is_leaf
  leaf_done = ap (λ t. t == 1) type_done

  slot-done : (i : ℕ) → slot done i ≡ slot slotted i
  unfolding slot
  slot-done i =
      word_behind 6 0 started frag_within (24 + 2 * i) (omega arith)
      ∙ word_behind 4 off slotted start_within (24 + 2 * i) (omega arith)

  where_at :
      (i : ℕ)
      → i < count p
      → (off ≤ slot done i)
        × (slot done i + cell_size p i ≤ usable)
        × (peek (slot done i) (cell_size p i) done ≡ cell_bytes p i)
  where_at i h =
      let (from, to, same) =
        Packed-at usable p slotted result.0 off 0 result.2 i packed.packed set.slots (omega arith)
          (omega (arith, packed.offsets, h)) in
      (
        omega (arith, slot-done i, from),
        omega (arith, slot-done i, to),
        peek-done (slot done i) (cell_size p i) (omega (arith, slot-done i, from))
              (omega (arith, slot-done i, to))
            ∙ ap (λ m. peek m (cell_size p i) result.0) (slot-done i)
            ∙ same,
      )

  size_done : (i : ℕ) → i < count p → cell_size done i ≡ cell_size p i
  unfolding cell_size cell
  size_done i h =
      ap (λ l. size_of l (drop (slot done i) done)) leaf_done
      ∙ size_of-found (is_leaf p) (cell_bytes p i) (drop (slot done i) done)
          (cell_bytes-IsCell usable p i v h)
          (ap (λ n. peek (slot done i) n done) (length-cell_bytes usable p i v h)
            ∙ (where_at i h).2)
      ∙ length-cell_bytes usable p i v h

  bytes_done : (i : ℕ) → i < count p → cell_bytes done i ≡ cell_bytes p i
  unfolding cell
  bytes_done i h = ap (λ n. peek (slot done i) n done) (size_done i h) ∙ (where_at i h).2

  cells-done : cells done ≡ cells p
  cells-done =
      ap (λ n. tabulate (cell_bytes done) n 0) count-done
      ∙ tabulate_same (cell_bytes p) (cell_bytes done) (count p) 0
          (λ j a b. bytes_done j (omega (arith, b)))

  IsNode-done : IsNode usable done
  IsNode-done = record {
    size_ok = length-done;
    usable_fits = v.usable_fits;
    directory = omega (arith, count-done, start_done, off_eq, v.directory);
    start_to = omega (arith, start_done, packed.start_is);
    slot_from = λ i h. omega (arith, start_done, (where_at i (omega (arith, h, count-done))).0);
    slot_to = λ i h. omega (
      arith,
      size_done i (omega (arith, h, count-done)),
      (where_at i (omega (arith, h, count-done))).1,
    );
    all_used = omega (arith, start_done, frag-done, off_eq, v.all_used, ap total cells-done);
  }

  space_done : free_space done ≡ free_space p + frag p
  unfolding free_space
  space_done =
      sub_size-le (content_start done) (24 + 2 * count done) IsNode-done.directory
        (omega (arith, IsNode-done.start_to, v.usable_fits))
      ∙ omega (
        arith,
        start_done,
        count-done,
        off_eq,
        v.directory,
        sub_size-le (content_start p) (24 + 2 * count p) v.directory
            (omega (arith, v.start_to, v.usable_fits)),
      )

-- Defragmenting keeps the cells, their order, the layout of the node and its type, leaves no fragments, and
-- makes room for every cell that `fits_after_defrag` promises room for.
pub defragment-cells :
    (usable : ℕ) (p : Bytes)
    → IsNode usable p
    → IsNode usable (defragment usable p)
      × (cells (defragment usable p) ≡ cells p)
      × (node_type (defragment usable p) ≡ node_type p)
      × (frag (defragment usable p) ≡ 0)
      × ((n : ℕ) → fits (defragment usable p) n ≡ fits_after_defrag p n)
defragment-cells usable p v =
    subst
      (λ q.
        IsNode usable q
        × (cells q ≡ cells p)
        × (node_type q ≡ node_type p)
        × (frag q ≡ 0)
        × ((n : ℕ) → fits q n ≡ fits_after_defrag p n))
      (sym (defragment-eq usable p v))
      (
        IsNode-done usable p v,
        cells-done usable p v,
        type_done usable p v,
        frag-done usable p v,
        room,
      )
  where
    room : (n : ℕ) → fits (done usable p v) n ≡ fits_after_defrag p n
    room n = unfold fits fits_after_defrag in ap (leb (n + 2)) (space_done usable p v)
