-- ===== src/Journal.antt =====
-- engine/src/journal.cpp and engine/include/archivum/journal.h: the append-only journal.
-- A journal owns the one file of `Vfs`; `open` and `close` of its handle are the flag `is_open`.
pub mod Image
pub mod Scan
pub mod Recovery
pub mod Log
pub mod Crash
pub mod Lookup
mod Examples
use archivum.Base.{
  ℕ, zero, suc, ◌+◌, ◌-◌, ◌==◌, ltb, leb, if◌then◌else◌, Bool, true, false, not, ◌&&◌, ◌||◌, Option,
  none, some, List, [], ◌∷◌, ◌++◌, Bytes, length, take, drop, get_elem?,
}
use archivum.Status.{Result, Status, ok, err, io_error, not_found, invalid_argument, corrupt}
use archivum.LittleEndian.{put_u32, get_u32}
use archivum.Crc32c.{crc32c}
use archivum.Vfs.{
  Disk, Io, continue, pure, ◌>>=◌, ◌>>◌, read, write, truncate, size, sync, sync_directory, exists,
  open_file,
}
use archivum.Engine.PageFormat.{bytes_eq}

pub record Options : Type 0 where
  pub max_record_bytes : ℕ
  pub unsafe_skip_sync : Bool

pub record RecordRef : Type 0 where
  pub offset : ℕ
  pub length : ℕ

pub record Journal : Type 0 where
  pub is_open : Bool
  pub records : List RecordRef
  pub end : ℕ
  pub dropped_tail_bytes : ℕ
  pub header_rewritten : Bool
  pub failed : Bool

-- "ARCHJNL1"
abbrev pub magic : Bytes
magic = 0x41 ∷ 0x52 ∷ 0x43 ∷ 0x48 ∷ 0x4A ∷ 0x4E ∷ 0x4C ∷ 0x31 ∷ []

abbrev pub header_bytes : ℕ
header_bytes = 16

abbrev pub record_header_bytes : ℕ
record_header_bytes = 8

unfoldable pub make_header : Bytes
make_header = let fields = magic ++ put_u32 1 in fields ++ put_u32 (crc32c 0 fields)

-- The bytes that `append` writes for one record.
unfoldable pub frame : Bytes → Bytes
frame payload =
    let size_field = put_u32 (length payload) in
    size_field ++ (put_u32 (crc32c (crc32c 0 size_field) payload) ++ payload)

abbrev pub opened : List RecordRef → ℕ → ℕ → Bool → Journal
opened records end dropped rewritten = record {
  is_open = true;
  records = records;
  end = end;
  dropped_tail_bytes = dropped;
  header_rewritten = rewritten;
  failed = false;
}

unfoldable pub create_new : Io Journal
create_new = do write 0 make_header; sync; sync_directory; pure (opened [] header_bytes 0 false)

unfoldable pub rewrite_header : ℕ → Io ℕ
rewrite_header n = do
  n' ← if ltb n header_bytes then (do truncate header_bytes; pure header_bytes) else pure n
  write 0 make_header
  sync
  sync_directory
  pure n'

-- The tests of the recovery loop on a record header, before the payload is read.
unfoldable pub length_ok : Options → ℕ → ℕ → ℕ → Bool
length_ok o total off len =
    not (len == 0 || ltb o.max_record_bytes len)
    && not (ltb total (off + record_header_bytes + len))

-- … and on the payload.
unfoldable pub payload_ok : Bytes → Bytes → Bool
payload_ok rh payload =
    length payload == get_u32 rh && crc32c (crc32c 0 (take 4 rh)) payload == get_u32 (drop 4 rh)

-- The recovery loop: the records found, and the offset behind them. `break` ends it.
unfoldable pub scan : Options → ℕ → ℕ → ℕ → List RecordRef → Io (List RecordRef × ℕ)
scan o zero total off found = pure (found, off)
scan o (suc fuel) total off found =
    if not (leb (off + record_header_bytes) total) then pure (found, off) else do
      rh ← read off record_header_bytes
      let len = get_u32 rh
      if not (length rh == record_header_bytes && length_ok o total off len)
          then pure (found, off)
          else do
            payload ← read (off + record_header_bytes) len
            if not (payload_ok rh payload)
                then pure (found, off)
                else scan o fuel total (off + record_header_bytes + len)
                    (found ++ record { offset = off; length = len } ∷ [])

-- `if (dropped_tail_bytes_ != 0)`
unfoldable pub drop_tail : ℕ → ℕ → Io (Unit {0})
drop_tail zero end = pure tt
drop_tail (suc n) end = do truncate end; sync

unfoldable pub recover : Options → Io Journal
recover o = do
  stored ← size
  got ← read 0 header_bytes
  let header_ok = length got == header_bytes && bytes_eq got make_header
  total ← if header_ok then pure stored else rewrite_header stored
  (records, off) ← scan o total total header_bytes []
  drop_tail (total - off) off
  pure (opened records off (total - off) (not header_ok))

unfoldable pub open_journal : Options → Io Journal
open_journal o = do was_there ← exists; open_file; if was_there then recover o else create_new

-- What `append` does with the outcome of its write and sync.
unfoldable pub appended : Status → Journal → Bytes → Disk → Status × Journal × Disk
appended (ok u) j payload d = (
  ok tt,
  record j {
    records = j.records ++ record { offset = j.end; length = length payload } ∷ [];
    end = j.end + length (frame payload);
  },
  d,
)
appended (err e) j payload d = (err e, record j { failed = true }, d)

unfoldable pub write_frame : Options → Journal → Bytes → Io (Unit {0})
write_frame o j payload = do
  write j.end (frame payload)
  if o.unsafe_skip_sync then pure tt else sync

-- The status, the journal afterwards and the disk afterwards.
unfoldable pub append : Options → Journal → Bytes → Disk → Status × Journal × Disk
unfolding appended write_frame
append o j payload d =
    if not j.is_open || j.failed
    then (err io_error, j, d)
    else if length payload == 0 || ltb o.max_record_bytes (length payload)
    then (err invalid_argument, j, d)
    else (let (r, d') = write_frame o j payload d in appended r j payload d')

unfoldable pub read_ref : Option RecordRef → Io Bytes
read_ref none d = (err not_found, d)
read_ref (some ref) d =
    (do
      out ← read (ref.offset + record_header_bytes) ref.length
      if length out == ref.length then pure out else (λ d. (err corrupt, d)))
      d

unfoldable pub read_record : Journal → ℕ → Io Bytes
unfolding read_ref
read_record j index d =
    if not j.is_open then (err io_error, d) else read_ref (get_elem? j.records index) d

unfoldable pub close : Journal → Journal
close j = record j { is_open = false }
