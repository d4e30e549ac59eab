-- ===== src/Engine/BTree/Leaf/Place.antt =====
-- What placing a cell in a leaf and splitting a leaf do to the cells, in engine/src/engine/btree.cpp.
use mathlib.Core.Path.{ap₂}
use archivum.Base.{
  ℕ, zero, suc, ◌+◌, ◌-◌, ◌*◌, ◌/◌, ◌^◌, ◌<◌, ◌≤◌, ◌≡◌, ◌⊎◌, inl, inr, sym, ap, ◌∙◌, subst, arith,
  leb, ◌==◌, true, false, Bool-cases, none, some, List, [], ◌∷◌, ◌++◌, Bytes, All, All-append,
  All-take, All-drop, length, length-append, length-take, length-drop, take, drop, take-append-drop,
}
use archivum.LittleEndian.{put_u64}
use archivum.LittleEndian.Laws.{length-put_u64}
use archivum.Engine.BTree.Node.{
  node_type, leaf_type, is_leaf, count, content_start, frag, insert_cell, defragment, fits,
  fits_after_defrag, free_space, poke, init, right, prev, set_right, set_prev, max_cell_bytes,
}
use archivum.Engine.BTree.Node.Shape.{
  tabulate, cell_bytes, cells, IsCell, IsNode, cell_bytes-IsCell,
}
use archivum.Engine.BTree.Node.Insert.{insert_cell-cells, sub_size-le}
use archivum.Engine.BTree.Node.Defragment.{defragment-cells}
use archivum.Engine.BTree.Node.Links.{
  frag_kept, type_kept, cells_kept, IsNode-kept, right-set_right, prev-set_right, prev-set_prev,
}
use archivum.Engine.BTree.Leaf.{
  usable_bytes, place_cell, gather, total_bytes, split_of, fill, split_leaf,
}
use archivum.Engine.BTree.Leaf.Fill.{Holds, fill-init, total_bytes-eq, length-cells}
use archivum.Engine.BTree.Leaf.Split.{AllShort, total_bytes-append, IsSplit, split_of-IsSplit}

-- The cells with a new one at a slot.
abbrev pub with_cell : ℕ → Bytes → List Bytes → List Bytes
with_cell slot c cs = take slot cs ++ c ∷ drop slot cs

gather_past :
    (n : Bytes) (slot : ℕ) (c : Bytes) (more i : ℕ)
    → slot < i
    → gather n slot c more i ≡ tabulate (cell_bytes n) more i
unfolding gather
gather_past n slot c zero i h = rw differ
  where
    differ : (slot == i) ≡ false
    differ = ground arith
gather_past n slot c (suc more) i h =
    rw differ (ap (◌∷◌ (cell_bytes n i)) (gather_past n slot c more (i + 1) (omega arith)))
  where
    differ : (i == slot) ≡ false
    differ = ground arith

gather_from :
    (n : Bytes) (slot : ℕ) (c : Bytes) (more i at : ℕ)
    → slot ≡ i + at
    → at ≤ more
    → gather n slot c more i ≡ with_cell at c (tabulate (cell_bytes n) more i)
unfolding gather
gather_from n slot c zero i zero e h = rw same
  where
    same : (slot == i) ≡ true
    same = ground arith
gather_from n slot c zero i (suc at) e h = absurd (omega arith)
gather_from n slot c (suc more) i zero e h =
    rw same (ap (λ cs. c ∷ cell_bytes n i ∷ cs) (gather_past n slot c more (i + 1) (omega arith)))
  where
    same : (i == slot) ≡ true
    same = ground arith
gather_from n slot c (suc more) i (suc at) e h =
    rw differ
      (ap (◌∷◌ (cell_bytes n i)) (gather_from n slot c more (i + 1) at (omega arith) (omega arith)))
  where
    differ : (i == slot) ≡ false
    differ = ground arith

pub gather-cells :
    (n : Bytes) (slot : ℕ) (c : Bytes)
    → slot ≤ count n
    → gather n slot c (count n) 0 ≡ with_cell slot c (cells n)
gather-cells n slot c h = gather_from n slot c (count n) 0 slot (omega arith) h

same_count : (q n : Bytes) → cells q ≡ cells n → count q ≡ count n
same_count q n e = sym (length-cells q) ∙ ap length e ∙ length-cells n

same_leaf :
    (q n c : Bytes) → node_type q ≡ node_type n → IsCell (is_leaf n) c → IsCell (is_leaf q) c
unfolding is_leaf
same_leaf q n c e h = subst (λ t. IsCell (t == 1) c) (sym e) h

no_room :
    (usable : ℕ) (n : Bytes) (m : ℕ)
    → IsNode usable n
    → fits_after_defrag n m ≡ false
    → usable < 24 + total_bytes (cells n) + m + 2
unfolding fits_after_defrag free_space
no_room usable n m v e = short (
    ap (λ s. leb (m + 2) (s + frag n))
      (sym (
        sub_size-le (content_start n) (24 + 2 * count n) v.directory
          (omega (arith, v.start_to, v.usable_fits))))
    ∙ e)
  where
    short :
        leb (m + 2) (content_start n - (24 + 2 * count n) + frag n) ≡ false
        → usable < 24 + total_bytes (cells n) + m + 2
    short f = ground (arith, v.directory, v.all_used, total_bytes-eq (cells n), length-cells n)

-- Placing a cell gives a node with the cell among the others at its slot, or the cells and the new one have
-- no room in a page together.
pub place_cell-cells :
    (page_size : ℕ) (n : Bytes) (slot : ℕ) (c : Bytes)
    → IsNode (usable_bytes page_size) n
    → slot ≤ count n
    → IsCell (is_leaf n) c
    → ((q : Bytes) × (place_cell page_size n slot c ≡ some q)
        × IsNode (usable_bytes page_size) q
        × (cells q ≡ with_cell slot c (cells n))
        × (node_type q ≡ node_type n))
      ⊎ ((place_cell page_size n slot c ≡ none)
          × (usable_bytes page_size < 24 + total_bytes (cells n) + length c + 2))
unfolding place_cell
place_cell-cells page_size n slot c v inside whole = elim (Bool-cases (fits n (length c))) [
  | inl now ↦
      let (node, content, typed, packed) =
        insert_cell-cells (usable_bytes page_size) n slot c v inside whole now in
      inl (insert_cell n slot c, rw now, node, content, typed)
  | inr not_now ↦ elim (Bool-cases (fits_after_defrag n (length c))) [
    | inl later ↦
        let (dnode, dcells, dtype, dfrag, room) = defragment-cells (usable_bytes page_size) n v in
        let (node, content, typed, packed) =
          insert_cell-cells (usable_bytes page_size) (defragment (usable_bytes page_size) n) slot c
            dnode
            (omega (arith, inside, same_count (defragment (usable_bytes page_size) n) n dcells))
            (same_leaf (defragment (usable_bytes page_size) n) n c dtype whole)
            (room (length c) ∙ later) in
        inl (
          insert_cell (defragment (usable_bytes page_size) n) slot c,
          rw (not_now, later),
          node,
          content ∙ ap (with_cell slot c) dcells,
          typed ∙ dtype,
        )
    | inr never ↦ inr (rw (not_now, never), no_room (usable_bytes page_size) n (length c) v never)
  ]
]

-- The halves of a split: two nodes that are both filled, with the cells and the new one between them in
-- order, linked to each other and to the neighbours of the leaf.
pub record IsHalves (page_size : ℕ) (n : Bytes) (slot : ℕ) (c : Bytes) (left_page right_page : ℕ)
    (halves : Bytes × Bytes) : Type 0 where
  pub left_node : IsNode (usable_bytes page_size) halves.0
  pub right_node : IsNode (usable_bytes page_size) halves.1
  pub All-cells : cells halves.0 ++ cells halves.1 ≡ with_cell slot c (cells n)
  pub left_filled : 1 ≤ count halves.0
  pub right_filled : 1 ≤ count halves.1
  pub types : (node_type halves.0 ≡ leaf_type) × (node_type halves.1 ≡ leaf_type)
  pub outer : (prev halves.0 ≡ prev n) × (right halves.1 ≡ right n)
  pub inner : (right halves.0 ≡ right_page) × (prev halves.1 ≡ left_page)

header-Holds :
    (usable : ℕ) (p : Bytes) (cs : List Bytes) (off : ℕ) (bs : Bytes)
    → Holds usable leaf_type p cs
    → 8 ≤ off
    → off + length bs ≤ 24
    → Holds usable leaf_type (poke off bs p) cs
header-Holds usable p cs off bs h from to = record {
  node = IsNode-kept usable p off bs h.node from to;
  content = cells_kept usable p off bs h.node from to ∙ h.content;
  typed = type_kept usable p off bs h.node from to ∙ h.typed;
  packed = frag_kept usable p off bs h.node from to ∙ h.packed;
}

module _ (usable : ℕ) (p : Bytes) (cs : List Bytes) (h : Holds usable leaf_type p cs)
    (back next : ℕ) (back_fits : back < 2 ^ 64) (next_fits : next < 2 ^ 64) where
  abbrev linked : Bytes
  linked = set_right (set_prev p back) next

  linked-IsNode : IsNode usable (set_prev p back)
  unfolding set_prev
  linked-IsNode =
      IsNode-kept usable p 16 (put_u64 back) h.node (omega arith)
        (omega (arith, length-put_u64 back))

  pub linked-Holds : Holds usable leaf_type linked cs
  unfolding set_right set_prev
  linked-Holds =
      header-Holds usable (set_prev p back) cs 8 (put_u64 next)
        (header-Holds usable p cs 16 (put_u64 back) h (omega arith)
          (omega (arith, length-put_u64 back)))
        (omega arith) (omega (arith, length-put_u64 next))

  pub linked-right : right linked ≡ next
  linked-right = right-set_right usable (set_prev p back) linked-IsNode next next_fits

  pub linked-prev : prev linked ≡ back
  linked-prev =
      prev-set_right usable (set_prev p back) linked-IsNode next next_fits
      ∙ prev-set_prev usable p h.node back back_fits

All-tabulate :
    {A : Type 0} (P : A → Type 0) (f : ℕ → A) (n i : ℕ)
    → ((j : ℕ) → i ≤ j → j < i + n → P (f j))
    → All P (tabulate f n i)
All-tabulate P f zero i h = tt
All-tabulate P f (suc n) i h = (
  h i (omega arith) (omega arith),
  All-tabulate P f n (i + 1) (λ j a b. h j (omega arith) (omega arith)),
)

All-with_cell :
    (P : Bytes → Type 0) (slot : ℕ) (c : Bytes) (cs : List Bytes)
    → P c
    → All P cs
    → All P (with_cell slot c cs)
All-with_cell P slot c cs h a =
    All-append P (take slot cs) (c ∷ drop slot cs) (All-take P slot cs a) (h, All-drop P slot cs a)

short_enough :
    (page_size : ℕ) (cs : List Bytes)
    → 512 ≤ page_size
    → All (λ c. length c ≤ max_cell_bytes page_size) cs
    → AllShort ((page_size - 28) / 4) cs
unfolding max_cell_bytes
short_enough page_size [] h a = tt
short_enough page_size (c ∷ cs) h a = (omega (arith, a.0), short_enough page_size cs h a.1)

module _ (page_size : ℕ) (n : Bytes) (slot : ℕ) (c : Bytes) (left_page right_page : ℕ)
    (least : 512 ≤ page_size) (most : page_size ≤ 65536) (v : IsNode (usable_bytes page_size) n)
    (leaf : node_type n ≡ leaf_type) (inside : slot ≤ count n) (some_cell : 1 ≤ count n)
    (whole : IsCell true c)
    (short : All (λ d. length d ≤ max_cell_bytes page_size) (c ∷ cells n)) where
  abbrev cs : List Bytes
  cs = with_cell slot c (cells n)

  is_leaf-true : is_leaf n ≡ true
  unfolding is_leaf
  is_leaf-true = ap (λ t. t == 1) leaf

  All-cells : All (IsCell true) cs
  All-cells = All-with_cell (IsCell true) slot c (cells n) whole (
      All-tabulate (IsCell true) (cell_bytes n) (count n) 0 (λ j a b.
        subst (λ l. IsCell l (cell_bytes n j)) is_leaf-true
          (cell_bytes-IsCell (usable_bytes page_size) n j v (omega (arith, b)))))

  All-short : AllShort ((page_size - 28) / 4) cs
  All-short =
      let s = short_enough page_size (c ∷ cells n) least short in
      All-with_cell (λ d. length d + 2 ≤ (page_size - 28) / 4) slot c (cells n) s.0 s.1

  bytes_of_cs : total_bytes cs ≡ total_bytes (cells n) + length c + 2
  unfolding total_bytes
  bytes_of_cs = omega (
    arith,
    total_bytes-append (take slot (cells n)) (c ∷ drop slot (cells n)),
    total_bytes-append (take slot (cells n)) (drop slot (cells n)),
    ap total_bytes (take-append-drop slot (cells n)),
  )

  length-cs : length cs ≡ count n + 1
  length-cs = omega (
    arith,
    length-append {0} (take slot (cells n)) (c ∷ drop slot (cells n)),
    length-append {0} (take slot (cells n)) (drop slot (cells n)),
    ap length (take-append-drop slot (cells n)),
    length-cells n,
  )

  is_split : IsSplit (page_size - 28) cs (split_of cs)
  is_split =
      split_of-IsSplit (page_size - 28) cs (omega (arith, least))
        (omega (arith, length-cs, some_cell)) All-short
        (omega (
          arith,
          bytes_of_cs,
          total_bytes-eq (cells n),
          length-cells n,
          v.all_used,
          v.directory,
          (short_enough page_size (c ∷ cells n) least short).0,
        ))

  abbrev split : ℕ
  split = split_of cs

  left_Holds :
      Holds
        (usable_bytes page_size)
        leaf_type
        (fill (init page_size leaf_type) 0 (take split cs))
        (take split cs)
  left_Holds =
      fill-init page_size leaf_type (take split cs) (omega (arith, least)) most
        (All-take (IsCell true) split cs All-cells) (omega (arith, is_split.left_fits, least))

  right_Holds :
      Holds
        (usable_bytes page_size)
        leaf_type
        (fill (init page_size leaf_type) 0 (drop split cs))
        (drop split cs)
  right_Holds =
      fill-init page_size leaf_type (drop split cs) (omega (arith, least)) most
        (All-drop (IsCell true) split cs All-cells) (omega (arith, is_split.right_fits, least))

  -- Splitting a leaf that is in order, none of whose cells is longer than the longest that `put` makes,
  -- always gives two nodes that are in order.
  pub split_leaf-IsHalves :
      left_page < 2 ^ 64
      → right_page < 2 ^ 64
      → prev n < 2 ^ 64
      → right n < 2 ^ 64
      → IsHalves page_size n slot c left_page right_page
          (split_leaf page_size n slot c left_page right_page)
  unfolding split_leaf
  split_leaf-IsHalves left_fits right_fits prev_fits next_fits =
      subst
        (λ ds. IsHalves page_size n slot c left_page right_page (
          set_right (set_prev (fill (init page_size leaf_type) 0 (take (split_of ds) ds)) (prev n))
              right_page,
          set_right (set_prev (fill (init page_size leaf_type) 0 (drop (split_of ds) ds)) left_page)
              (right n),
        ))
        (sym (gather-cells n slot c inside))
        (record {
          left_node = l.node;
          right_node = r.node;
          All-cells = ap₂ (◌++◌) l.content r.content ∙ take-append-drop split cs;
          left_filled = omega (
            arith,
            length-cells left,
            ap length l.content,
            length-take {0} split cs,
            is_split.some_left,
            is_split.some_right,
          );
          right_filled = omega (
            arith,
            length-cells right_half,
            ap length r.content,
            length-drop {0} split cs,
            is_split.some_right,
          );
          types = (l.typed, r.typed);
          outer = (
            linked-prev _ _ _ left_Holds (prev n) right_page prev_fits right_fits,
            linked-right _ _ _ right_Holds left_page (right n) left_fits next_fits,
          );
          inner = (
            linked-right _ _ _ left_Holds (prev n) right_page prev_fits right_fits,
            linked-prev _ _ _ right_Holds left_page (right n) left_fits next_fits,
          );
        })
    where
      left : Bytes
      left =
          set_right (set_prev (fill (init page_size leaf_type) 0 (take split cs)) (prev n))
            right_page

      right_half : Bytes
      right_half =
          set_right (set_prev (fill (init page_size leaf_type) 0 (drop split cs)) left_page)
            (right n)

      l : Holds (usable_bytes page_size) leaf_type left (take split cs)
      l = linked-Holds _ _ _ left_Holds (prev n) right_page prev_fits right_fits

      r : Holds (usable_bytes page_size) leaf_type right_half (drop split cs)
      r = linked-Holds _ _ _ right_Holds left_page (right n) left_fits next_fits
