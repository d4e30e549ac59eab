-- ===== src/Engine/WriteTxn.antt =====
-- The pages of a write transaction: `WriteTxn` of engine/src/engine/db.cpp, up to its commit.
mod View
mod PageLists
mod FreeList
mod Laws
mod Taken
mod Release
mod Examples
use archivum.Base.{
  ℕ, ◌+◌, ◌-◌, ◌%◌, ◌^◌, ◌==◌, leb, if◌then◌else◌, not, Bool, true, false, Option, none, some,
  Bytes, length, replicate,
}
use archivum.Status.{Result, Status, ok, err, invalid_argument, ◌>>=◌}
use archivum.Engine.PageFormat.{DbHeader, encode_free_page, decode_free_page}
use archivum.Engine.BTree.Pages.{Pages, and_then}

-- `dirty` gives what the transaction wrote to a page, and `freed` says which pages it freed.
pub record WriteTxn : Type 0 where
  pub header : DbHeader
  pub snapshot_header : DbHeader
  pub dirty : ℕ → Option Bytes
  pub freed : ℕ → Bool
  pub finished : Bool

-- `dirty_[page] = data`
unfoldable pub with_page : ℕ → Bytes → WriteTxn → WriteTxn
with_page page bytes t = record t { dirty = λ q. if q == page then some bytes else t.dirty q }

-- `++header_.page_count`
unfoldable pub grown : WriteTxn → WriteTxn
grown t = record t { header = record t.header { page_count = (t.header.page_count + 1) % 2 ^ 64 } }

-- The head of the free list is taken off it.
unfoldable pub without_head : ℕ → WriteTxn → WriteTxn
without_head next t = record t {
  header = record t.header {
    freelist_head = next;
    freelist_count = (t.header.freelist_count + 2 ^ 64 - 1) % 2 ^ 64;
  };
  freed = λ q. if q == t.header.freelist_head then false else t.freed q;
}

-- The page becomes the head of the free list.
unfoldable pub with_head : ℕ → WriteTxn → WriteTxn
with_head page t = record t {
  header = record t.header {
    freelist_head = page;
    freelist_count = (t.header.freelist_count + 1) % 2 ^ 64;
  };
  freed = λ q. if q == page then true else t.freed q;
}

-- The committed pages of the snapshot are a parameter, of which nothing is assumed.
module _ (page_size : ℕ) (read_committed : ℕ → Result Bytes) where
  -- `WriteTxn::read_page`, into a buffer of the size of a page
  unfoldable pub read_page : ℕ → WriteTxn → Result Bytes
  read_page page t =
      if t.finished
      then err invalid_argument
      else if leb t.header.page_count page
      then err invalid_argument
      else elim (t.dirty page) [
        | some bytes ↦ ok bytes
        | none ↦
            if leb t.snapshot_header.page_count page
            then err invalid_argument
            else read_committed page
      ]

  -- `WriteTxn::write_page`
  unfoldable pub write_page : ℕ → Bytes → WriteTxn → Status × WriteTxn
  unfolding with_page
  write_page page bytes t =
      if t.finished
      then (err invalid_argument, t)
      else if page == 0
      then (err invalid_argument, t)
      else if leb t.header.page_count page
      then (err invalid_argument, t)
      else if not (length bytes == page_size)
      then (err invalid_argument, t)
      else if t.freed page
      then (err invalid_argument, t)
      else (ok tt, with_page page bytes t)

  -- What the head of the free list says is the next one.
  unfoldable pub next_free : WriteTxn → Result ℕ
  unfolding read_page
  next_free t = do buf ← read_page t.header.freelist_head t; decode_free_page buf

  -- `WriteTxn::allocate_page`
  unfoldable pub allocate_page : WriteTxn → Result ℕ × WriteTxn
  unfolding with_page grown without_head next_free
  allocate_page t =
      if t.finished
      then (err invalid_argument, t)
      else if t.header.freelist_head == 0
      then (ok t.header.page_count, with_page t.header.page_count (replicate page_size 0) (grown t))
      else and_then (next_free t, t)
          (λ next t'. (
            ok t.header.freelist_head,
            with_page t.header.freelist_head (replicate page_size 0) (without_head next t),
          ))

  -- `WriteTxn::free_page`
  unfoldable pub free_page : ℕ → WriteTxn → Status × WriteTxn
  unfolding with_page with_head
  free_page page t =
      if t.finished
      then (err invalid_argument, t)
      else if page == 0
      then (err invalid_argument, t)
      else if leb t.header.page_count page
      then (err invalid_argument, t)
      else if t.freed page
      then (err invalid_argument, t)
      else (
        ok tt,
        with_head page
            (with_page page (encode_free_page t.header.freelist_head (replicate page_size 0)) t),
      )

  -- `WriteTxnPages`
  unfoldable pub txn_pages : Pages WriteTxn
  unfolding read_page write_page allocate_page free_page
  txn_pages = record {
    read_page = read_page;
    write_page = write_page;
    allocate_page = allocate_page;
    free_page = free_page;
  }
