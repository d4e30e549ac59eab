-- ===== src/Engine/Wal/Operations.antt =====
-- The operations of engine/src/engine/wal.cpp on an open log: opening, lookups, appending a
-- transaction, and emptying the log after a checkpoint.
use archivum.Base.{
  ℕ, ◌+◌, ◌-◌, ◌==◌, leb, if◌then◌else◌, Bool, true, false, not, ◌&&◌, ◌||◌, List, [], ◌∷◌, ◌++◌,
  Bytes, length,
}
use archivum.Base.Int.{pos}
use archivum.Status.{
  ErrorCode, Status, ok, err, io_error, corrupt, crashed, invalid_argument, not_found,
}
use archivum.Vfs.{
  Disk, Io, pure, ◌>>=◌, ◌>>◌, read, write, truncate, sync, sync_directory, exists, open_file, fail,
}
use archivum.Engine.PageFormat.{
  page_checksum_ok, decode_db_header, WalHeader, chain_seed, WalFrameHeader, encode_frame_header,
}
use archivum.Engine.Wal.{
  Wal, WalCommit, WalRecoveryInfo, frame_header_bytes, frame_offset, publish, write_header, recover,
  with_header,
}

pub record PageImage : Type 0 where
  pub page : ℕ
  pub bytes : Bytes

pub record OpenOptions : Type 0 where
  pub db_id : Bytes
  pub new_base_change_counter : ℕ
  pub read_only : Bool

-- The object as `Wal::open` sets it up before it looks at the file.
abbrev pub fresh : ℕ → OpenOptions → ℕ → ℕ → Wal
fresh page_size o salt1 salt2 = record {
  is_open = true;
  page_size = page_size;
  header = record {
    page_size = page_size;
    salt1 = salt1;
    salt2 = salt2;
    db_id = o.db_id;
    base_change_counter = o.new_base_change_counter;
  };
  next_frame = 1;
  last_commit = 0;
  chain = 0;
  failed = false;
  read_only = o.read_only;
  index = [];
  commits = [];
  commit_list = [];
  frame_pages = [];
}

abbrev pub no_recovery : WalRecoveryInfo
no_recovery = record { committed_frames = 0; dropped_bytes = 0; header_rewritten = false }

unfoldable pub create : Wal → Io (Wal × WalRecoveryInfo)
create w = do
  write_header w.header
  sync_directory
  pure (record w { chain = chain_seed w.header }, no_recovery)

-- `Wal::open`. The salts are used if a header is written; `recover` draws its own.
unfoldable pub open_wal : ℕ → OpenOptions → ℕ → ℕ → Io (Wal × WalRecoveryInfo)
open_wal page_size o salt1 salt2 = do
  was_there ← exists
  if o.read_only && not was_there then fail not_found else do
    open_file
    if was_there
        then recover (fresh page_size o 0 0) o.db_id salt1 salt2
        else create (fresh page_size o salt1 salt2)

-- `Wal::db_size_at`
unfoldable pub db_size_in : List (ℕ × ℕ) → ℕ → ℕ
db_size_in [] commit_frame = 0
db_size_in ((frame, n) ∷ rest) commit_frame =
    if frame == commit_frame then n else db_size_in rest commit_frame

-- The last frame at or before the snapshot, of ascending frames.
unfoldable pub latest_before : ℕ → List ℕ → ℕ → ℕ
latest_before best [] snapshot = best
latest_before best (f ∷ fs) snapshot = if leb f snapshot then latest_before f fs snapshot else best

unfoldable pub frames_of : ℕ → List (ℕ × List ℕ) → List ℕ
frames_of page [] = []
frames_of page ((p, frames) ∷ rest) = if p == page then frames else frames_of page rest

-- `Wal::find`
unfoldable pub find : Wal → ℕ → ℕ → ℕ
unfolding frames_of latest_before
find w page snapshot = latest_before 0 (frames_of page w.index) snapshot

-- `Wal::latest_frames`
unfoldable pub latest_in : List (ℕ × List ℕ) → ℕ → List (ℕ × ℕ)
latest_in [] up_to = []
latest_in ((page, frames) ∷ rest) up_to =
    let f = latest_before 0 frames up_to in
    let later = latest_in rest up_to in if not (f == 0) then (page, f) ∷ later else later

-- `Wal::read_frame_page` into a buffer of `n` bytes.
unfoldable pub read_frame_page : Wal → ℕ → ℕ → Io Bytes
read_frame_page w frame n =
    if frame == 0 || leb w.next_frame frame || not (n == w.page_size)
    then fail invalid_argument
    else do
      out ← read (frame_offset w.page_size frame + frame_header_bytes) n
      if not (length out == w.page_size)
          then fail corrupt
          else if not (page_checksum_ok out)
          then fail corrupt
          else pure out

-- The loop of `append_transaction`: the bytes of the frames and the last checksum, or the error of an
-- image of the wrong size.
abbrev pub frame_header : Wal → PageImage → ℕ → WalFrameHeader
frame_header w image db_size = record {
  page_no = image.page;
  db_size_after_commit = db_size;
  salt1 = w.header.salt1;
  salt2 = w.header.salt2;
  checksum = 0;
}

unfoldable pub encode_frame : Wal → PageImage → ℕ → ℕ → Bytes × ℕ
encode_frame w image db_size running =
    let (head, fh) = encode_frame_header (frame_header w image db_size) image.bytes running in
    (head ++ image.bytes, fh.checksum)

-- Only the last frame carries the size.
abbrev pub size_if_last : List PageImage → ℕ → ℕ
size_if_last [] db_size_after = db_size_after
size_if_last (i ∷ is) db_size_after = 0

unfoldable pub encode_frames : Wal → List PageImage → ℕ → ℕ → Bytes × ℕ
encode_frames w [] db_size_after running = ([], running)
encode_frames w (image ∷ rest) db_size_after running =
    let (bytes, sum) = encode_frame w image (size_if_last rest db_size_after) running in
    let (more, end) = encode_frames w rest db_size_after sum in (bytes ++ more, end)

unfoldable pub sizes_ok : ℕ → List PageImage → Bool
sizes_ok page_size [] = true
sizes_ok page_size (image ∷ rest) = length image.bytes == page_size && sizes_ok page_size rest

unfoldable pub number_frames : ℕ → List PageImage → List (ℕ × ℕ)
number_frames n [] = []
number_frames n (image ∷ rest) = (image.page, n) ∷ number_frames (n + 1) rest

abbrev pub last_bytes : List PageImage → Bytes
last_bytes [] = []
last_bytes (image ∷ []) = image.bytes
last_bytes (image ∷ next ∷ rest) = last_bytes (next ∷ rest)

-- What the commit record takes from the image of page 0, where that can be read.
unfoldable pub commit_of : ℕ → ℕ → Bytes → WalCommit
commit_of frame db_size page = elim (decode_db_header page) [
  | ok h ↦ record {
    frame = frame;
    db_size = db_size;
    change_counter = h.change_counter;
    commit_time_us = h.commit_time_us;
  }
  | err e ↦ record { frame = frame; db_size = db_size; change_counter = 0; commit_time_us = pos 0 }
]

-- `Wal::discard_uncommitted`
unfoldable pub discard_uncommitted : Wal → Io (Unit {0})
discard_uncommitted w =
    if not w.is_open
    then fail io_error
    else do truncate (frame_offset w.page_size w.next_frame); sync

unfoldable pub report : ErrorCode → Status → Status
report e (err crashed) = err crashed
report e s = err e

-- `append_transaction` behind its write and sync.
unfoldable pub committed : Status → Wal → List PageImage → ℕ → ℕ → Disk → Status × Wal × Disk
unfolding publish report commit_of number_frames
committed (ok u) w images db_size_after running d =
    let last = w.next_frame + length images - 1 in
    (
      ok tt,
      record (publish w (number_frames w.next_frame images)
          (commit_of last db_size_after (last_bytes images))) {
            next_frame = last + 1;
            chain = running;
          },
      d,
    )
committed (err e) w images db_size_after running d =
    let (s, d') = discard_uncommitted w d in (report e s, record w { failed = true }, d')

unfoldable pub append_transaction : Wal → List PageImage → ℕ → Disk → Status × Wal × Disk
append_transaction w [] db_size_after d = (err invalid_argument, w, d)
append_transaction w (image ∷ rest) db_size_after d =
    if w.read_only
    then (err invalid_argument, w, d)
    else if w.failed
    then (err io_error, w, d)
    else if not (sizes_ok w.page_size (image ∷ rest))
    then (err invalid_argument, w, d)
    else (let (bytes, running) = encode_frames w (image ∷ rest) db_size_after w.chain in
        let (s, d') = (do write (frame_offset w.page_size w.next_frame) bytes; sync) d in
        committed s w (image ∷ rest) db_size_after running d')

-- `Wal::reset` behind a truncation that succeeded.
abbrev pub emptied : Wal → WalHeader → Wal
emptied w h = record (with_header w h) {
  index = [];
  commits = [];
  commit_list = [];
  frame_pages = [];
  last_commit = 0;
  next_frame = 1;
}

unfoldable pub reset_header : Status → Wal → Disk → Status × Wal × Disk
reset_header (ok u) w d = (ok tt, w, d)
reset_header (err e) w d = (err e, record w { failed = true }, d)

unfoldable pub reset_truncated : Status → Wal → WalHeader → Disk → Status × Wal × Disk
unfolding reset_header
reset_truncated (err e) w h d = (err e, record w { header = h; failed = true }, d)
reset_truncated (ok u) w h d = let (s, d') = write_header h d in reset_header s (emptied w h) d'

-- `Wal::reset`
unfoldable pub reset : Wal → ℕ → ℕ → ℕ → Disk → Status × Wal × Disk
unfolding reset_truncated
reset w base salt1 salt2 d =
    if w.read_only
    then (err invalid_argument, w, d)
    else if w.failed
    then (err io_error, w, d)
    else (let h : WalHeader = record w.header {
      salt1 = salt1;
      salt2 = salt2;
      base_change_counter = base;
    } in
        let (s, d') = truncate 0 d in reset_truncated s w h d')
