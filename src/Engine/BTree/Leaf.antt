-- ===== src/Engine/BTree/Leaf.antt =====
-- The page part of `BTree::insert_into_leaf` of engine/src/engine/btree.cpp: a cell placed into a leaf, and a
-- leaf split into two.
mod Fill
mod Split
mod Place
mod Entries
mod Map
mod Examples
use archivum.Base.{
  ℕ, zero, suc, ◌+◌, ◌-◌, ◌*◌, ◌/◌, ◌==◌, ltb, if◌then◌else◌, Bool, true, false, ◌&&◌, Option, none,
  some, List, [], ◌∷◌, ◌++◌, Bytes, length, take, drop,
}
use archivum.Engine.Types.{compare_bytes}
use archivum.Engine.PageFormat.{page_trailer_bytes}
use archivum.Engine.BTree.Node.{
  leaf_type, count, cell, cell_size, key, is_equal, lower_bound, overflowed, value_len,
  inline_value, overflow_page, insert_cell, remove_cell, defragment, fits, fits_after_defrag, init,
  right, prev, set_right, set_prev,
}

abbrev pub usable_bytes : ℕ → ℕ
usable_bytes page_size = page_size - page_trailer_bytes

-- The page with the cell at the slot; `none` when the leaf splits.
unfoldable pub place_cell : ℕ → Bytes → ℕ → Bytes → Option Bytes
place_cell page_size n slot cell =
    if fits n (length cell)
    then some (insert_cell n slot cell)
    else if fits_after_defrag n (length cell)
    then some (insert_cell (defragment (usable_bytes page_size) n) slot cell)
    else none

-- The page on which the cell is placed: without the cell that it replaces.
unfoldable pub without_replaced : Bytes → ℕ → Bool → Bytes
without_replaced n slot replace = if replace then remove_cell n slot else n

-- `slot < n.count() && compare(n.key(slot), key) == 0`, of `get`, `put` and `erase`.
unfoldable pub has_key : Bytes → ℕ → Bytes → Bool
has_key n slot k = ltb slot (count n) && is_equal (compare_bytes (key n slot) k)

-- The value of a cell: in the cell, or its length and the first of its overflow pages.
pub data Stored : Type 0 where
  inlined : Bytes → Stored
  spilled : ℕ → ℕ → Stored

unfoldable pub stored_of : Bytes → Stored
stored_of c =
    if overflowed c then spilled (value_len c) (overflow_page c) else inlined (inline_value c)

-- What `BTree::get` reads of the leaf that it found.
unfoldable pub leaf_get : Bytes → Bytes → Option Stored
unfolding has_key stored_of
leaf_get n k =
    let slot = (lower_bound n k).0 in
    if has_key n slot k then some (stored_of (cell n slot)) else none

-- What `BTree::put` does to the leaf that it found, with the cell that is to hold the key.
unfoldable pub leaf_put : ℕ → Bytes → Bytes → Bytes → Option Bytes
unfolding has_key without_replaced place_cell
leaf_put page_size n k c =
    let slot = (lower_bound n k).0 in
    place_cell page_size (without_replaced n slot (has_key n slot k)) slot c

-- What `BTree::erase` does to the leaf that it found: `none` when the key is not there.
unfoldable pub leaf_erase : Bytes → Bytes → Option Bytes
unfolding has_key
leaf_erase n k =
    let slot = (lower_bound n k).0 in if has_key n slot k then some (remove_cell n slot) else none

-- Every cell with the new one in place, from cell `i` on.
unfoldable pub gather : Bytes → ℕ → Bytes → ℕ → ℕ → List Bytes
gather n slot c zero i = if slot == i then c ∷ [] else []
gather n slot c (suc more) i =
    let rest = take (cell_size n i) (cell n i) ∷ gather n slot c more (i + 1) in
    if i == slot then c ∷ rest else rest

unfoldable pub total_bytes : List Bytes → ℕ
total_bytes [] = 0
total_bytes (c ∷ cs) = length c + 2 + total_bytes cs

-- The loop that looks for the split, over the cells from `split` on; `split < cells.size() - 1` is that there
-- is another cell.
unfoldable pub find_split : List Bytes → ℕ → ℕ → ℕ → ℕ
find_split [] half split acc = split
find_split (c ∷ []) half split acc = split
find_split (c ∷ next ∷ cs) half split acc =
    let later = find_split (next ∷ cs) half (split + 1) (acc + length c + 2) in
    if ltb (acc + length c + 2) half then later else split

unfoldable pub split_of : List Bytes → ℕ
unfolding find_split total_bytes
split_of cs = let split = find_split cs (total_bytes cs / 2) 0 0 in if split == 0 then 1 else split

-- The loop that inserts the cells one behind the other.
unfoldable pub fill : Bytes → ℕ → List Bytes → Bytes
fill n i [] = n
fill n i (c ∷ cs) = fill (insert_cell n i c) (i + 1) cs

-- The two halves, linked to each other and to the neighbours of the leaf.
unfoldable pub split_leaf : ℕ → Bytes → ℕ → Bytes → ℕ → ℕ → Bytes × Bytes
unfolding gather split_of fill
split_leaf page_size n slot c left_page right_page =
    let cs = gather n slot c (count n) 0 in
    let split = split_of cs in
    let left = fill (init page_size leaf_type) 0 (take split cs) in
    let right_half = fill (init page_size leaf_type) 0 (drop split cs) in
    (
      set_right (set_prev left (prev n)) right_page,
      set_right (set_prev right_half left_page) (right n),
    )
