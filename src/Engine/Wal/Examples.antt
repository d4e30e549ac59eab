-- ===== src/Engine/Wal/Examples.antt =====
-- The write-ahead log at pages of eight bytes: page 3 has the frames 1, 2 and 4.
use archivum.Base.{◌≡◌, refl, arith, true, false, some, [], ◌∷◌, replicate}
use archivum.Status.{ok, err, io_error}
use archivum.Vfs.{Disk, write, sync, truncate}
use archivum.Engine.PageFormat.{WalHeader}
use archivum.Engine.Wal.{Wal}
use archivum.Engine.Wal.Operations.{
  PageImage, append_transaction, committed, sizes_ok, reset, find, frames_of, report,
  discard_uncommitted,
}
use archivum.Engine.Wal.Lookup.{Ascending, IsLatest, find-append_transaction, find-IsLatest}
use archivum.Engine.Wal.Visible.{append_transaction-visible}
use archivum.Engine.Wal.Failure.{append_transaction_error_sticks}

abbrev header : WalHeader
header = record {
  page_size = 8;
  salt1 = 5;
  salt2 = 6;
  db_id = replicate 16 1;
  base_change_counter = 0;
}

abbrev log : Wal
log = record {
  is_open = true;
  page_size = 8;
  header = header;
  next_frame = 5;
  last_commit = 4;
  chain = 77;
  failed = false;
  read_only = false;
  index = (3, 1 ∷ 2 ∷ 4 ∷ []) ∷ (0, 3 ∷ []) ∷ [];
  commits = (4, 9) ∷ [];
  commit_list = [];
  frame_pages = 3 ∷ 3 ∷ 0 ∷ 3 ∷ [];
}

abbrev page : PageImage
page = record { page = 3; bytes = replicate 8 0 }

-- The write of the transaction fails and leaves an empty file; then the disk works again.
abbrev broken : Disk
broken = record {
  present = true;
  content = [];
  outcomes = some (record { code = io_error; left = [] }) ∷ [];
}

abbrev working : Disk
working = record { present = true; content = []; outcomes = [] }

find-append_transaction_example :
    find (append_transaction log (page ∷ []) 9 working).1 3 4 ≡ find log 3 4
find-append_transaction_example =
    find-append_transaction log (page ∷ []) 9 working 3 4 (omega arith)

ascending : Ascending 0 (frames_of 3 log.index)
unfolding frames_of
ascending = (omega arith, (omega arith, (omega arith, tt)))

find-IsLatest_example : IsLatest 0 (frames_of 3 log.index) 3 (find log 3 3)
find-IsLatest_example = find-IsLatest log 3 3 ascending

sized : sizes_ok 8 (page ∷ []) ≡ true
unfolding sizes_ok
sized = refl

fails : (append_transaction log (page ∷ []) 9 broken).0 ≡ err io_error
unfolding append_transaction sizes_ok committed report discard_uncommitted write sync truncate
fails = refl

append_transaction_error_sticks_example :
    (append_transaction (append_transaction log (page ∷ []) 9 broken).1 (page ∷ []) 9 working
      ≡ (err io_error, (append_transaction log (page ∷ []) 9 broken).1, working))
    × (reset (append_transaction log (page ∷ []) 9 broken).1 0 7 8 working
        ≡ (err io_error, (append_transaction log (page ∷ []) 9 broken).1, working))
append_transaction_error_sticks_example =
    append_transaction_error_sticks log page [] 9 broken io_error page [] 9 0 7 8 working refl refl
      sized fails

abbrev other : PageImage
other = record { page = 7; bytes = replicate 8 1 }

both_sized : sizes_ok 8 (page ∷ other ∷ page ∷ []) ≡ true
unfolding sizes_ok
both_sized = refl

succeeds : (append_transaction log (page ∷ other ∷ page ∷ []) 9 working).0 ≡ ok tt
unfolding append_transaction sizes_ok committed write sync
succeeds = refl

append_transaction-visible_example :
    find (append_transaction log (page ∷ other ∷ page ∷ []) 9 working).1 7 7 ≡ 6
append_transaction-visible_example =
    append_transaction-visible log (page ∷ []) other (page ∷ []) 9 working refl refl both_sized
      ((omega arith, (omega arith, (omega arith, tt))), ((omega arith, tt), tt))
      ((λ e. absurd (omega (arith, e))), tt) succeeds
