-- ===== src/Engine/BTree/Descent.antt =====
-- The way from the root to a leaf, in engine/src/engine/btree.cpp: `find_leaf` and `get`.
mod Routes
mod Examples
use Prim.Native.Nat.{Ordering}
use archivum.Base.{
  ℕ, zero, suc, ◌+◌, ◌==◌, ltb, if◌then◌else◌, Bool, true, false, Option, none, some, List, [], ◌∷◌,
  ◌++◌, Bytes,
}
use archivum.Status.{Result, ◌>>=◌, ok, err, corrupt}
use archivum.Engine.Types.{compare_bytes}
use archivum.Engine.BTree.Node.{
  interior_type, node_type, is_leaf, count, cell, key, child, right, search, lower_bound,
}
use archivum.Engine.BTree.Leaf.{Stored, inlined, spilled, stored_of, has_key}
use archivum.Engine.BTree.Pages.{Pages}
use archivum.Engine.BTree.Overflow.{read_overflow}

-- `PathEntry`
pub record PathEntry : Type 0 where
  pub page : ℕ
  pub slot : ℕ

abbrev pub not_greater : Ordering → Bool
not_greater Ordering.gt = false
not_greater o = true

-- The slot of the first separator that is greater than the key.
unfoldable pub child_slot : Bytes → Bytes → ℕ
unfolding search
child_slot n k = search (λ mid. not_greater (compare_bytes (key n mid) k)) (count n) 0 (count n)

-- The page to the left of the separator at the slot.
unfoldable pub child_at : Bytes → ℕ → ℕ
child_at n slot = if ltb slot (count n) then child (cell n slot) else right n

-- The slot of the last entry, or the number given.
abbrev pub last_or : ℕ → List PathEntry → ℕ
last_or n [] = n
last_or n (e ∷ es) = last_or e.slot es

-- `path.back().slot`
abbrev pub last_slot : List PathEntry → ℕ
last_slot path = last_or 0 path

module _ (S : Type 0) (pages : Pages S) (page_size : ℕ) where
  -- The loop of `find_leaf`, on the levels that are left, with the path and the leaf.
  unfoldable pub descend : ℕ → ℕ → Bytes → List PathEntry → S → Result (List PathEntry × Bytes)
  unfolding child_slot child_at
  descend zero page k path s = err corrupt
  descend (suc levels) page k path s = do
    n ← pages.read_page page s
    let lo = child_slot n k
    let rest = descend levels (child_at n lo) k (path ++ record { page = page; slot = lo } ∷ []) s
    if is_leaf n
        then ok (path ++ record { page = page; slot = (lower_bound n k).0 } ∷ [], n)
        else if node_type n == interior_type
        then (if child_at n lo == 0 then err corrupt else rest)
        else err corrupt

  -- `BTree::find_leaf`, from the root
  unfoldable pub find_leaf : ℕ → Bytes → S → Result (List PathEntry × Bytes)
  unfolding descend
  find_leaf root k s = descend 64 root k [] s

  -- The value of a cell, read from the overflow pages if it is there.
  unfoldable pub fetch : Stored → S → Result (Option Bytes)
  fetch (inlined v) s = ok (some v)
  fetch (spilled total first) s = do v ← read_overflow S pages page_size first total s; ok (some v)

  -- `BTree::get`
  unfoldable pub get : ℕ → Bytes → S → Result (Option Bytes)
  unfolding find_leaf fetch has_key stored_of
  get root k s = do
    (path, leaf) ← find_leaf root k s
    let slot = last_slot path
    if has_key leaf slot k then fetch (stored_of (cell leaf slot)) s else ok none
