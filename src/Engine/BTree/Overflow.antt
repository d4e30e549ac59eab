-- ===== src/Engine/BTree/Overflow.antt =====
-- Values that do not fit their cell, in engine/src/engine/btree.cpp: `write_overflow`, `read_overflow` and
-- `free_overflow`.
pub mod RoundTrip
use archivum.Base.{
  ℕ, zero, suc, ◌+◌, ◌-◌, ◌/◌, ◌%◌, ◌^◌, ◌==◌, ltb, min, if◌then◌else◌, List, [], ◌∷◌, ◌++◌, Bytes,
  length, take, drop, replicate,
}
use archivum.Status.{Result, Status, ok, err, corrupt}
use archivum.LittleEndian.{put_u64, get_u64}
use archivum.Engine.PageFormat.{page_trailer_bytes}
use archivum.Engine.BTree.Node.{poke, peek}
use archivum.Engine.BTree.Pages.{Pages, and_then}

abbrev pub overflow_header : ℕ
overflow_header = 8

abbrev pub capacity : ℕ → ℕ
capacity page_size = page_size - page_trailer_bytes - overflow_header

-- A page of the chain: the number of the next, and its part of the value.
unfoldable pub overflow_image : ℕ → ℕ → Bytes → Bytes
overflow_image page_size next part =
    poke overflow_header part (poke 0 (put_u64 next) (replicate page_size 0))

abbrev pub first_of : List ℕ → ℕ
first_of [] = 0
first_of (p ∷ ps) = p

module _ (S : Type 0) (pages : Pages S) (page_size : ℕ) where
  unfoldable pub allocate_all : ℕ → S → Result (List ℕ) × S
  allocate_all zero s = (ok [], s)
  allocate_all (suc n) s =
      and_then (pages.allocate_page s)
        (λ p s'. and_then (allocate_all n s') (λ ps s''. (ok (p ∷ ps), s'')))

  -- The loop over the pages, on what is left of the value.
  unfoldable pub write_chain : List ℕ → Bytes → S → Status × S
  write_chain [] value s = (ok tt, s)
  write_chain (p ∷ ps) value s =
      and_then
        (pages.write_page p
          (overflow_image page_size (first_of ps) (take (capacity page_size) value)) s)
        (λ u s'. write_chain ps (drop (capacity page_size) value) s')

  -- `BTree::write_overflow`, with the first page.
  unfoldable pub write_overflow : Bytes → S → Result ℕ × S
  unfolding allocate_all write_chain
  write_overflow value s =
      and_then (allocate_all ((length value + capacity page_size - 1) / capacity page_size) s)
        (λ ps s'. and_then (write_chain ps value s') (λ u s''. (ok (first_of ps), s'')))

  -- The loop of `read_overflow`, with the bytes that remain as fuel.
  unfoldable pub read_chain : ℕ → ℕ → ℕ → ℕ → ℕ → Bytes → S → Result Bytes
  read_chain zero total page remaining hops out s = ok out
  read_chain (suc fuel) total page remaining hops out s =
      if remaining == 0
      then ok out
      else if page == 0
      then err corrupt
      else if ltb (total / capacity page_size + 2) (hops + 1)
      then err corrupt
      else elim (pages.read_page page s) [
        | err e ↦ err e
        | ok buf ↦
            let len = min (capacity page_size) remaining in
            read_chain fuel total (get_u64 buf) (remaining - len) (hops + 1)
              (out ++ peek overflow_header len buf) s
      ]

  -- `BTree::read_overflow`, whose `total` is a `std::uint32_t`
  unfoldable pub read_overflow : ℕ → ℕ → S → Result Bytes
  unfolding read_chain
  read_overflow first total s = let size = total % 2 ^ 32 in read_chain size size first size 0 [] s

  -- `BTree::free_overflow`, whose loop counts its hops up to 2^24.
  unfoldable pub free_chain : ℕ → ℕ → S → Status × S
  free_chain zero page s = if page == 0 then (ok tt, s) else (err corrupt, s)
  free_chain (suc hops) page s = if page == 0 then (ok tt, s) else elim (pages.read_page page s) [
    | err e ↦ (err e, s)
    | ok buf ↦ and_then (pages.free_page page s) (λ u s'. free_chain hops (get_u64 buf) s')
  ]

  unfoldable pub free_overflow : ℕ → S → Status × S
  unfolding free_chain
  free_overflow first s = free_chain 16_777_216 first s
