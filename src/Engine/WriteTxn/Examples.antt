-- ===== src/Engine/WriteTxn/Examples.antt =====
-- A value of three bytes on overflow pages that hold two, in a transaction with one free page.
use mathlib.Core.List.{Perm}
use archivum.Base.{
  ℕ, ◌+◌, ◌≡◌, ◌==◌, refl, arith, if◌then◌else◌, false, none, some, List, [], ◌∷◌, Bytes, replicate,
}
use archivum.Base.Int.{pos}
use archivum.Status.{Result, ok, err, io_error}
use archivum.LittleEndian.{get_u64, put_u64, get_from, put_from}
use archivum.Engine.PageFormat.{DbHeader, encode_free_page, decode_free_page, bytes_eq}
use archivum.Engine.BTree.Node.{poke}
use archivum.Engine.BTree.Overflow.{
  write_overflow, read_overflow, free_overflow, allocate_all, write_chain, free_chain,
  overflow_image,
}
use archivum.Engine.WriteTxn.{
  WriteTxn, with_page, grown, without_head, with_head, read_page, write_page, next_free,
  allocate_page, free_page, txn_pages,
}
use archivum.Engine.WriteTxn.Laws.{read_overflow-write_overflow}
use archivum.Engine.WriteTxn.PageLists.{upto}
use archivum.Engine.WriteTxn.Taken.{Listed}
use archivum.Engine.WriteTxn.Release.{free_overflow-write_overflow}

abbrev header : DbHeader
header = record {
  page_size = 14;
  format_version = 1;
  page_count = 6;
  freelist_head = 4;
  freelist_count = 1;
  change_counter = 3;
  db_id = replicate 16 5;
  commit_time_us = pos 9;
}

abbrev free_link : Bytes
free_link = encode_free_page 0 (replicate 14 0)

abbrev txn : WriteTxn
txn = record {
  header = header;
  snapshot_header = header;
  dirty = λ p. if p == 4 then some free_link else none;
  freed = λ p. false;
  finished = false;
}

abbrev no_page : ℕ → Result Bytes
no_page p = err io_error

abbrev value : Bytes
value = 7 ∷ 8 ∷ 9 ∷ []

abbrev after_write : WriteTxn
after_write = (write_overflow WriteTxn (txn_pages 14 no_page) 14 value txn).1

abbrev after_free : WriteTxn
after_free = (free_overflow WriteTxn (txn_pages 14 no_page) 14 4 after_write).1

wrote : write_overflow WriteTxn (txn_pages 14 no_page) 14 value txn ≡ (ok 4, after_write)
unfolding write_overflow allocate_all write_chain txn_pages allocate_page write_page read_page
    next_free with_page grown without_head overflow_image decode_free_page encode_free_page bytes_eq
    get_u64 put_u64 get_from put_from poke
wrote = refl

released : free_overflow WriteTxn (txn_pages 14 no_page) 14 4 after_write ≡ (ok tt, after_free)
unfolding write_overflow allocate_all write_chain free_overflow free_chain txn_pages allocate_page
    write_page read_page next_free free_page with_page with_head grown without_head overflow_image
    decode_free_page encode_free_page bytes_eq get_u64 put_u64 get_from put_from poke
released = refl

read_overflow-write_overflow_example :
    read_overflow WriteTxn (txn_pages 14 no_page) 14 4 3 after_write ≡ ok value
read_overflow-write_overflow_example =
    read_overflow-write_overflow 14 no_page value txn after_write 4 (omega arith) (omega arith)
      (omega arith) (omega arith) wrote

listed : Listed 14 no_page txn (4 ∷ [])
unfolding read_page decode_free_page encode_free_page bytes_eq get_u64 put_u64 get_from put_from
listed = (refl, omega arith, (0, refl, refl))

free_overflow-write_overflow_example :
    (free : List ℕ) × (k : ℕ) × Listed 14 no_page after_free free
    × Perm free (4 ∷ upto 6 k)
    × (after_free.header.page_count ≡ 6 + k)
free_overflow-write_overflow_example =
    free_overflow-write_overflow 14 no_page value txn after_write after_free 4 (4 ∷ [])
      (omega arith) refl (omega arith) (omega arith) listed (tt, tt) wrote released
