-- ===== src/Engine/BTree/Leaf/Examples.antt =====
-- The leaf's theorems at a page of 512 bytes with the keys 5 and 6.
use mathlib.Core.Path.{ap₂}
use archivum.Base.{
  ℕ, ◌+◌, ◌<◌, ◌≤◌, ◌≡◌, ◌≢◌, ◌⊎◌, refl, sym, ap, ◌∙◌, subst, arith, true, false, some, none, List,
  [], ◌∷◌, Bytes, All, length,
}
use archivum.LittleEndian.{put_u32, put_from}
use archivum.Engine.Types.{compare_bytes}
use archivum.Engine.BTree.Node.{
  put_u16, node_type, leaf_type, count, frag, cell_key, init, lower_bound, fits, fits_after_defrag,
  defragment, build_leaf_cell, max_cell_bytes, set_prev, set_right,
}
use archivum.Engine.BTree.Node.Shape.{cells, IsCell, IsNode}
use archivum.Engine.BTree.Node.Search.{IsLowerBound, lower_bound-IsLowerBound}
use archivum.Engine.BTree.Node.Defragment.{defragment-cells}
use archivum.Engine.BTree.Node.Cell.{build_leaf_cell-inline}
use archivum.Engine.BTree.Leaf.{
  total_bytes, fill, stored_of, has_key, without_replaced, leaf_get, leaf_put, leaf_erase,
  split_leaf,
}
use archivum.Engine.BTree.Leaf.Fill.{Holds, fill-init, length-cells}
use archivum.Engine.BTree.Leaf.Place.{
  linked-Holds, linked-prev, linked-right, IsHalves, split_leaf-IsHalves,
}
use archivum.Engine.BTree.Leaf.Entries.{Ascending, Before}
use archivum.Engine.BTree.Leaf.Map.{Ascending-KeysAscend, leaf_put-lookup, leaf_erase-lookup}

abbrev cell_of : ℕ → ℕ → Bytes
cell_of k value = build_leaf_cell (k ∷ []) (value ∷ []) false 1 0

cell_of-IsCell : (k value : ℕ) → IsCell true (cell_of k value)
cell_of-IsCell k value =
    (build_leaf_cell-inline (k ∷ []) (value ∷ []) (omega arith) (omega arith)).0

cell_of-key : (k value : ℕ) → cell_key true (cell_of k value) ≡ k ∷ []
cell_of-key k value = (build_leaf_cell-inline (k ∷ []) (value ∷ []) (omega arith) (omega arith)).1

length-cell_of : (k value : ℕ) → length (cell_of k value) ≡ 9
unfolding build_leaf_cell put_u16 put_u32 put_from
length-cell_of k value = refl

abbrev entries : List Bytes
entries = cell_of 5 1 ∷ cell_of 6 2 ∷ []

abbrev filled : Bytes
filled = fill (init 512 leaf_type) 0 entries

filled-Holds : Holds 508 leaf_type filled entries
unfolding total_bytes
filled-Holds =
    fill-init 512 leaf_type entries (omega arith) (omega arith)
      (cell_of-IsCell 5 1, (cell_of-IsCell 6 2, tt))
      (omega (arith, length-cell_of 5 1, length-cell_of 6 2))

-- The first leaf, in front of the one on page 12.
abbrev leaf : Bytes
leaf = set_right (set_prev filled 0) 12

leaf-Holds : Holds 508 leaf_type leaf entries
leaf-Holds = linked-Holds 508 filled entries filled-Holds 0 12 (omega arith) (omega arith)

leaf_ascends : Ascending (cells leaf)
leaf_ascends = subst Ascending (sym leaf-Holds.content) ((before, tt), (tt, tt))
  where
    before : Before (cell_of 5 1) (cell_of 6 2)
    before = ap₂ compare_bytes (cell_of-key 5 1) (cell_of-key 6 2) ∙ (unfold compare_bytes in refl)

lower_bound-IsLowerBound_example : IsLowerBound leaf (6 ∷ []) (lower_bound leaf (6 ∷ []))
lower_bound-IsLowerBound_example =
    lower_bound-IsLowerBound leaf (6 ∷ [])
      (Ascending-KeysAscend 508 leaf leaf-Holds.node leaf-Holds.typed leaf_ascends)

defragment-cells_example :
    IsNode 508 (defragment 508 leaf)
    × (cells (defragment 508 leaf) ≡ cells leaf)
    × (node_type (defragment 508 leaf) ≡ node_type leaf)
    × (frag (defragment 508 leaf) ≡ 0)
    × ((n : ℕ) → fits (defragment 508 leaf) n ≡ fits_after_defrag leaf n)
defragment-cells_example = defragment-cells 508 leaf leaf-Holds.node

leaf_put-lookup_example :
    ((q : Bytes) × (leaf_put 512 leaf (6 ∷ []) (cell_of 6 9) ≡ some q)
      × IsNode 508 q
      × (node_type q ≡ leaf_type)
      × Ascending (cells q)
      × (leaf_get q (6 ∷ []) ≡ some (stored_of (cell_of 6 9)))
      × ((l : Bytes) → l ≢ 6 ∷ [] → leaf_get q l ≡ leaf_get leaf l))
    ⊎ ((leaf_put 512 leaf (6 ∷ []) (cell_of 6 9) ≡ none)
        × (508
            < 24
              + total_bytes (
                  cells (
                    without_replaced leaf
                      (lower_bound leaf (6 ∷ [])).0
                      (has_key leaf (lower_bound leaf (6 ∷ [])).0 (6 ∷ []))))
              + length (cell_of 6 9)
              + 2))
leaf_put-lookup_example =
    leaf_put-lookup 512 leaf (6 ∷ []) (cell_of 6 9) leaf-Holds.node leaf-Holds.typed leaf_ascends
      (cell_of-IsCell 6 9) (cell_of-key 6 9)

leaf_erase-lookup_example :
    ((q : Bytes) × (leaf_erase leaf (5 ∷ []) ≡ some q)
      × IsNode 508 q
      × (node_type q ≡ leaf_type)
      × Ascending (cells q)
      × (leaf_get q (5 ∷ []) ≡ none)
      × ((l : Bytes) → l ≢ 5 ∷ [] → leaf_get q l ≡ leaf_get leaf l))
    ⊎ ((leaf_erase leaf (5 ∷ []) ≡ none) × (leaf_get leaf (5 ∷ []) ≡ none))
leaf_erase-lookup_example =
    leaf_erase-lookup 508 leaf (5 ∷ []) leaf-Holds.node leaf-Holds.typed leaf_ascends

count-leaf : count leaf ≡ 2
count-leaf = sym (length-cells leaf) ∙ ap length leaf-Holds.content

All-short : All (λ d. length d ≤ max_cell_bytes 512) (cell_of 7 3 ∷ cells leaf)
All-short = (
  omega (arith, length-cell_of 7 3, most),
  subst (All (λ d. length d ≤ max_cell_bytes 512)) (sym leaf-Holds.content)
      (omega (arith, length-cell_of 5 1, most), (omega (arith, length-cell_of 6 2, most), tt)),
)
  where
    most : max_cell_bytes 512 ≡ 119
    most = unfold max_cell_bytes in refl

split_leaf-IsHalves_example :
    IsHalves 512 leaf 2 (cell_of 7 3) 10 11 (split_leaf 512 leaf 2 (cell_of 7 3) 10 11)
split_leaf-IsHalves_example =
    split_leaf-IsHalves 512 leaf 2 (cell_of 7 3) 10 11 (omega arith) (omega arith) leaf-Holds.node
      leaf-Holds.typed (omega (arith, count-leaf)) (omega (arith, count-leaf)) (cell_of-IsCell 7 3)
      All-short (omega arith) (omega arith)
      (omega (arith, linked-prev 508 filled entries filled-Holds 0 12 (omega arith) (omega arith)))
      (omega (arith, linked-right 508 filled entries filled-Holds 0 12 (omega arith) (omega arith)))
