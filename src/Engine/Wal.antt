-- ===== src/Engine/Wal.antt =====
-- engine/src/engine/wal.cpp and engine/src/engine/wal.h: the write-ahead log.
-- A log owns the one file of `Vfs`. The salts of a fresh header are arguments: they come from
-- engine/src/entropy.cpp. The maps of the class are association lists in the order of insertion.
pub mod Operations
mod Lookup
mod Failure
mod Visible
mod Image
mod Replay
mod Transactions
mod Torn
mod Logs
mod Recovery
mod Crash
mod CrashExamples
mod Archive
mod Examples
use archivum.Base.{
  ℕ, zero, suc, ◌+◌, ◌-◌, ◌*◌, ◌==◌, ltb, leb, if◌then◌else◌, Bool, true, false, not, ◌&&◌, ◌||◌,
  Option, none, some, List, [], ◌∷◌, ◌++◌, Bytes, length, take, drop, map,
}
use archivum.Base.Int.{ℤ, pos}
use archivum.Status.{
  ErrorCode, Result, Status, ok, err, io_error, corrupt, crashed, invalid_argument,
}
use archivum.Vfs.{
  Disk, Io, continue, pure, ◌>>=◌, ◌>>◌, read, write, truncate, size, sync, sync_directory, fail,
}
use archivum.Engine.PageFormat.{
  bytes_eq, page_checksum_ok, DbHeader, decode_db_header, WalHeader, encode_wal_header,
  decode_wal_header, chain_seed, WalFrameHeader, encode_frame_header, decode_frame_header,
}

pub record WalCommit : Type 0 where
  pub frame : ℕ
  pub db_size : ℕ
  pub change_counter : ℕ
  pub commit_time_us : ℤ

pub record Wal : Type 0 where
  pub is_open : Bool
  pub page_size : ℕ
  pub header : WalHeader
  pub next_frame : ℕ
  pub last_commit : ℕ
  pub chain : ℕ
  pub failed : Bool
  pub read_only : Bool
  pub index : List (ℕ × List ℕ)
  pub commits : List (ℕ × ℕ)
  pub commit_list : List WalCommit
  pub frame_pages : List ℕ

pub record WalRecoveryInfo : Type 0 where
  pub committed_frames : ℕ
  pub dropped_bytes : ℕ
  pub header_rewritten : Bool

abbrev pub wal_header_bytes : ℕ
wal_header_bytes = 48

abbrev pub frame_header_bytes : ℕ
frame_header_bytes = 32

abbrev pub frame_size : ℕ → ℕ
frame_size page_size = frame_header_bytes + page_size

unfoldable pub frame_offset : ℕ → ℕ → ℕ
frame_offset page_size frame = wal_header_bytes + (frame - 1) * frame_size page_size

-- `index_[page].push_back(frame)`
unfoldable pub index_add : ℕ → ℕ → List (ℕ × List ℕ) → List (ℕ × List ℕ)
index_add page frame [] = (page, frame ∷ []) ∷ []
index_add page frame ((p, frames) ∷ rest) =
    if p == page then (p, frames ++ frame ∷ []) ∷ rest else (p, frames) ∷ index_add page frame rest

unfoldable pub index_add_all : List (ℕ × ℕ) → List (ℕ × List ℕ) → List (ℕ × List ℕ)
index_add_all [] index = index
index_add_all ((page, frame) ∷ rest) index = index_add_all rest (index_add page frame index)

-- `Wal::publish`
unfoldable pub publish : Wal → List (ℕ × ℕ) → WalCommit → Wal
publish w frames commit = record w {
  index = index_add_all frames w.index;
  frame_pages = w.frame_pages ++ map (λ f. f.0) frames;
  commits = w.commits ++ (commit.frame, commit.db_size) ∷ [];
  commit_list = w.commit_list ++ commit ∷ [];
  last_commit = commit.frame;
}

-- The variables of the loop in `recover`. A `break` leaves the fields that are read behind it alone.
pub record Progress : Type 0 where
  pub wal : Wal
  pub pending : List (ℕ × ℕ)
  pub frame : ℕ
  pub valid_end : ℕ
  pub running : ℕ

-- The frame is valid but does not commit.
unfoldable pub add_pending : Progress → WalFrameHeader → Progress
add_pending s fh = record s {
  pending = s.pending ++ (fh.page_no, s.frame) ∷ [];
  frame = s.frame + 1;
  running = fh.checksum;
}

-- The frame commits, and its page is the image of page 0.
unfoldable pub add_commit : Progress → WalFrameHeader → DbHeader → Progress
unfolding publish
add_commit s fh h = record s {
  wal =
      record (publish s.wal (s.pending ++ (fh.page_no, s.frame) ∷ []) (record {
        frame = s.frame;
        db_size = fh.db_size_after_commit;
        change_counter = h.change_counter;
        commit_time_us = h.commit_time_us;
      })) { chain = fh.checksum };
  pending = [];
  frame = s.frame + 1;
  valid_end = frame_offset s.wal.page_size s.frame + frame_size s.wal.page_size;
  running = fh.checksum;
}

unfoldable pub take_frame : Progress → WalFrameHeader → Bytes → Option Progress
take_frame s fh page =
    if fh.db_size_after_commit == 0
    then some (add_pending s fh)
    else if not (fh.page_no == 0)
    then none
    else elim (decode_db_header page) [ ok h ↦ some (add_commit s fh h) | err e ↦ none ]

unfoldable pub salts_match : WalHeader → WalFrameHeader → Bool
salts_match h fh = fh.salt1 == h.salt1 && fh.salt2 == h.salt2

-- One round behind the read of a frame; `none` is a `break`.
unfoldable pub examine : Progress → Bytes → Option Progress
examine s buf =
    if not (length buf == frame_size s.wal.page_size)
    then none
    else (let page = drop frame_header_bytes buf in
        elim (decode_frame_header (take frame_header_bytes buf) page s.running) [
          | err e ↦ none
          | ok fh ↦
              if not (salts_match s.wal.header fh && page_checksum_ok page)
              then none
              else take_frame s fh page
        ])

-- The loop, with the size of the file as fuel.
unfoldable pub replay : ℕ → ℕ → Progress → Io Progress
replay zero total s = pure s
replay (suc fuel) total s =
    if not (leb (frame_offset s.wal.page_size s.frame + frame_size s.wal.page_size) total)
    then pure s
    else do
      buf ← read (frame_offset s.wal.page_size s.frame) (frame_size s.wal.page_size)
      elim (examine s buf) [ none ↦ pure s | some s' ↦ replay fuel total s' ]

unfoldable pub write_header : WalHeader → Io (Unit {0})
write_header h = do write 0 (encode_wal_header h); sync

-- The header of the file, if it is one of this database's.
unfoldable pub usable_header : ℕ → Bytes → Bytes → Option WalHeader
usable_header page_size db_id buf =
    if length buf == wal_header_bytes
    then elim (decode_wal_header buf) [
      | ok h ↦ if h.page_size == page_size && bytes_eq h.db_id db_id then some h else none
      | err e ↦ none
    ]
    else none

abbrev pub with_header : Wal → WalHeader → Wal
with_header w h = record w { header = h; chain = chain_seed h }

-- An unusable header: a fresh log, or an error when the log is read-only.
unfoldable pub start_fresh : Wal → ℕ → ℕ → ℕ → Io (Wal × WalRecoveryInfo)
start_fresh w salt1 salt2 stored = if w.read_only then fail corrupt else do
  let h = record w.header { salt1 = salt1; salt2 = salt2 }
  truncate 0
  write_header h
  pure (
    record (with_header w h) { next_frame = 1 },
    record { committed_frames = 0; dropped_bytes = stored; header_rewritten = true },
  )

-- What `recover` does behind the loop.
unfoldable pub finish : Progress → ℕ → Io (Wal × WalRecoveryInfo)
finish s stored =
    let w = record s.wal { next_frame = s.wal.last_commit + 1 } in
    let info : WalRecoveryInfo = record {
      committed_frames = s.wal.last_commit;
      dropped_bytes = stored - s.valid_end;
      header_rewritten = false;
    } in
    if w.read_only then pure (w, info) else do
      if ltb s.valid_end stored then (do truncate s.valid_end; sync) else pure tt
      if stored - s.valid_end == 0 then sync else pure tt
      sync_directory
      pure (w, info)

unfoldable pub from_header : Option WalHeader → Wal → ℕ → ℕ → ℕ → Io (Wal × WalRecoveryInfo)
unfolding start_fresh finish
from_header none w salt1 salt2 stored = start_fresh w salt1 salt2 stored
from_header (some h) w salt1 salt2 stored = do
  s ← replay stored stored (record {
    wal = with_header w h;
    pending = [];
    frame = 1;
    valid_end = wal_header_bytes;
    running = chain_seed h;
  })
  finish s stored

-- `Wal::recover`
unfoldable pub recover : Wal → Bytes → ℕ → ℕ → Io (Wal × WalRecoveryInfo)
recover w db_id salt1 salt2 = do
  stored ← size
  hbuf ← read 0 wal_header_bytes
  from_header (usable_header w.page_size db_id hbuf) w salt1 salt2 stored
