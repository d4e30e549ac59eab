-- ===== src/Engine/Wal/CrashExamples.antt =====
-- Recovery and the crash of an append at a log of pages of 76 bytes whose transactions write page 0.
use archivum.Base.{
  length-append, take, ◌≡◌, refl, ◌∙◌, arith, true, false, [], ◌∷◌, ◌++◌, Bytes, length, replicate,
}
use archivum.Base.Int.{pos, to_i64, to_u64}
use archivum.Status.{ok, err, io_error, crashed}
use archivum.LittleEndian.{put_u32, put_u64, put_from, get_u32, get_u64}
use archivum.Engine.PageFormat.{
  DbHeader, WalHeader, encode_db_header, decode_db_header, read_db_header, bytes_eq, seal_page,
}
use archivum.Engine.PageFormat.Trailer.{page_checksum_ok-seal_page}
use archivum.Engine.PageFormat.Headers.{IsWalHeader}
use archivum.Journal.Scan.{quiet}
use archivum.Engine.Wal.{Wal}
use archivum.Engine.Wal.Operations.{
  PageImage, OpenOptions, append_transaction, encode_frame, encode_frames,
}
use archivum.Engine.Wal.Recovery.{log_of, file_of}
use archivum.Engine.Wal.Crash.{
  Reopens, Part, failing, down, append_transaction-Reopens, append_transaction_crash,
  append_transaction_discards,
}
use archivum.Engine.Wal.Archive.{copy_committed_to, copy_committed_to-Reopens}
use archivum.Engine.Wal.Image.{
  after, bytes_of, length-encode_frame, Transaction, IsTransaction, IsImage,
}

abbrev id : Bytes
id = replicate 16 5

abbrev db : DbHeader
db = record {
  page_size = 4096;
  format_version = 3;
  page_count = 12;
  freelist_head = 4;
  freelist_count = 1;
  change_counter = 77;
  db_id = id;
  commit_time_us = pos 1_700_000_000_000_000;
}

abbrev body : Bytes
body = encode_db_header db (replicate 72 0)

body_length : length body ≡ 72
unfolding encode_db_header put_u32 put_u64 put_from
body_length = refl

abbrev page_zero : PageImage
page_zero = record { page = 0; bytes = seal_page (body ++ replicate 4 0) }

abbrev transaction : Transaction
transaction = record { first = page_zero; rest = []; db_size = 12 }

header_back : decode_db_header (seal_page (body ++ replicate 4 0)) ≡ ok db
unfolding decode_db_header read_db_header bytes_eq seal_page encode_db_header put_u32 put_u64
    put_from get_u32 get_u64 to_i64 to_u64
header_back = refl

page_IsImage : IsImage 76 page_zero
page_IsImage = record {
  length_ok =
      (page_checksum_ok-seal_page body (replicate 4 0) (omega (arith, body_length)) refl).1
      ∙ omega (arith, length-append body (replicate 4 0), body_length);
  sealed = (page_checksum_ok-seal_page body (replicate 4 0) (omega (arith, body_length)) refl).0;
  page_fits = omega arith;
}

transaction-IsTransaction : IsTransaction 76 transaction
transaction-IsTransaction = record {
  images_ok = (page_IsImage, tt);
  size_fits = omega arith;
  some_size = omega arith;
  commit_page = refl;
  header = db;
  header_ok = header_back;
}

abbrev header : WalHeader
header = record { page_size = 76; salt1 = 9; salt2 = 8; db_id = id; base_change_counter = 76 }

header-IsWalHeader : IsWalHeader header
header-IsWalHeader = omega arith

abbrev options : OpenOptions
options = record { db_id = id; new_base_change_counter = 3; read_only = false }

-- The log of one transaction, its file, and the bytes of the same transaction behind it.
abbrev log : Wal
log = log_of 76 options header (transaction ∷ [])

abbrev file : Bytes
file = file_of 76 options header (transaction ∷ [])

abbrev two : Bytes
two = file_of 76 options header (transaction ∷ transaction ∷ [])

bytes_length : (w : Wal) → length (bytes_of w transaction) ≡ 108
unfolding encode_frames
bytes_length w = omega (
  arith,
  length-append {0} (encode_frame w page_zero 12 w.chain).0 [],
  length-encode_frame w page_zero 12 w.chain 76 page_IsImage,
)

append_transaction-Reopens_example :
    (append_transaction log (page_zero ∷ []) 12 (quiet file)
      ≡ (ok tt, after log transaction, quiet two))
    × Reopens 76 options 1 2 two (after log transaction) 0 two
append_transaction-Reopens_example =
    append_transaction-Reopens 76 options header (transaction ∷ []) header-IsWalHeader refl refl
      refl (transaction-IsTransaction, tt) 1 2 transaction transaction-IsTransaction

append_transaction_crash_example :
    ((append_transaction log (page_zero ∷ []) 12 (down file (bytes_of log transaction) 40)).0
      ≡ err crashed)
    × ((append_transaction log
          (page_zero ∷ [])
          12
          (down file (bytes_of log transaction) 40)).2.content
        ≡ file ++ take 40 (bytes_of log transaction))
    × Part 76 options header
        (transaction ∷ [])
        header-IsWalHeader
        refl
        refl
        refl
        (transaction-IsTransaction, tt)
        1
        2
        transaction
        40
append_transaction_crash_example =
    append_transaction_crash 76 options header (transaction ∷ []) header-IsWalHeader refl refl refl
      (transaction-IsTransaction, tt) 1 2 transaction 40 transaction-IsTransaction

append_transaction_discards_example :
    (append_transaction log
        (page_zero ∷ [])
        12
        (failing file (bytes_of log transaction) 40 io_error [])
      ≡ (err io_error, record log { failed = true }, quiet file))
    × Reopens 76 options 1 2 file log 0 file
append_transaction_discards_example =
    append_transaction_discards 76 options header (transaction ∷ []) header-IsWalHeader refl refl
      refl (transaction-IsTransaction, tt) 1 2 transaction 40 io_error transaction-IsTransaction

copy_committed_to-Reopens_example :
    (copy_committed_to log
        (quiet (file ++ 1 ∷ 2 ∷ []))
        (record { present = true; content = 7 ∷ []; outcomes = [] })
      ≡ (ok tt, quiet (file ++ 1 ∷ 2 ∷ []), quiet file))
    × Reopens 76 options 1 2 file log 0 file
copy_committed_to-Reopens_example =
    copy_committed_to-Reopens 76 options header (transaction ∷ []) header-IsWalHeader refl refl refl
      (transaction-IsTransaction, tt) 1 2 (1 ∷ 2 ∷ []) (7 ∷ []) true
