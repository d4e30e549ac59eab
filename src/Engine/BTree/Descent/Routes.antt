-- ===== src/Engine/BTree/Descent/Routes.antt =====
-- Which leaf a key belongs to, and what `get` of engine/src/engine/btree.cpp reads of it.
use archivum.Base.{ℕ, suc, ◌≡◌, ◌≢◌, true, Option, none, some, Bytes}
use archivum.Status.{Result, ok}
use archivum.Engine.Types.{compare_bytes}
use archivum.Engine.BTree.Node.{interior_type, node_type, is_leaf, count, key}
use archivum.Engine.BTree.Node.Search.{IsFirst, KeysAscend}
use archivum.Engine.BTree.Leaf.{Stored}
use archivum.Engine.BTree.Pages.{Pages}
use archivum.Engine.BTree.Descent.{not_greater, child_at, fetch}

-- The first separator greater than the key is at the slot.
abbrev pub Separates : Bytes → Bytes → ℕ → Type 0
Separates n k slot = IsFirst (λ i. not_greater (compare_bytes (key n i) k)) 0 (count n) slot

module _ (S : Type 0) (pages : Pages S) (page_size : ℕ) (s : S) (k : Bytes) where
  -- The leaf to which the separators lead the key, with the number of levels to it.
  pub data Route : ℕ → ℕ → Bytes → Type 0 where
    arrives :
        (page : ℕ) (leaf : Bytes)
        → pages.read_page page s ≡ ok leaf
        → is_leaf leaf ≡ true
        → Route 1 page leaf
    passes :
        (levels page slot : ℕ) (n leaf : Bytes)
        → pages.read_page page s ≡ ok n
        → node_type n ≡ interior_type
        → KeysAscend n
        → Separates n k slot
        → child_at n slot ≢ 0
        → Route levels (child_at n slot) leaf
        → Route (suc levels) page leaf

  abbrev fetched : Option Stored → Result (Option Bytes)
  fetched none = ok none
  fetched (some v) = fetch S pages page_size v s
