-- ===== src/Engine/Wal/Replay.antt =====
-- The loop of `Wal::recover` of engine/src/engine/wal.cpp on a file of which nothing is refused: it
-- takes a transaction frame by frame, and stops at one that was written in part.
use archivum.Base.{
  ℕ, suc, ◌+◌, ◌^◌, ◌<◌, ◌≤◌, ◌≡◌, refl, ap, ◌∙◌, arith, leb, true, Option, none, some, ◌++◌, Bytes,
  length, ==_refl, take, drop, take_exact, drop_exact,
}
use archivum.Status.{ok}
use archivum.Vfs.{Io, pure, read}
use archivum.Journal.Scan.{quiet}
use archivum.Engine.PageFormat.{WalFrameHeader, encode_frame_header, decode_frame_header}
use archivum.Engine.PageFormat.Chain.{IsFrameHeader, decode-encode_frame_header}
use archivum.Engine.Wal.{
  Progress, frame_size, frame_offset, take_frame, salts_match, examine, replay,
}
use archivum.Engine.Wal.Operations.{PageImage, frame_header, encode_frame}
use archivum.Engine.Wal.Image.{IsImage, length-frame_bytes, length-encode_frame}

-- The loop is at a frame of a log whose salts fit their fields.
pub record IsReady (s : Progress) : Type 0 where
  pub frame_pos : 1 ≤ s.frame
  pub salt1_fits : s.wal.header.salt1 < 2 ^ 32
  pub salt2_fits : s.wal.header.salt2 < 2 ^ 32

abbrev pub chained : Progress → PageImage → ℕ → WalFrameHeader
chained s image db_size = record (frame_header s.wal image db_size) {
  checksum = (encode_frame s.wal image db_size s.running).1;
}

module _ (s : Progress) (r : IsReady s) (image : PageImage) (db_size : ℕ)
    (i : IsImage s.wal.page_size image) (db_fits : db_size < 2 ^ 64) where
  abbrev frame : Bytes
  frame = (encode_frame s.wal image db_size s.running).0

  abbrev head : Bytes
  head = (encode_frame_header (frame_header s.wal image db_size) image.bytes s.running).0

  length-head : length head ≡ 32
  unfolding encode_frame_header
  length-head = length-frame_bytes (frame_header s.wal image db_size) _

  is_header : IsFrameHeader (frame_header s.wal image db_size)
  is_header = record {
    page_no_fits = i.page_fits;
    db_size_fits = db_fits;
    salt1_fits = r.salt1_fits;
    salt2_fits = r.salt2_fits;
  }

  decoded : decode_frame_header head image.bytes s.running ≡ ok (chained s image db_size)
  unfolding encode_frame encode_frame_header
  decoded =
      decode-encode_frame_header (frame_header s.wal image db_size) image.bytes is_header s.running

  frame-parts : frame ≡ head ++ image.bytes
  unfolding encode_frame
  frame-parts = refl

  take-frame : take 32 frame ≡ head
  take-frame = ap (take 32) frame-parts ∙ take_exact head image.bytes length-head

  drop-frame : drop 32 frame ≡ image.bytes
  drop-frame = ap (drop 32) frame-parts ∙ drop_exact head image.bytes length-head

  salts : salts_match s.wal.header (chained s image db_size) ≡ true
  unfolding salts_match
  salts = rw (==_refl s.wal.header.salt1, ==_refl s.wal.header.salt2)

  -- A frame of the log that continues the chain passes every test.
  examine-frame : examine s frame ≡ take_frame s (chained s image db_size) image.bytes
  unfolding examine
  examine-frame = rw (
    length-encode_frame s.wal image db_size s.running s.wal.page_size i,
    ==_refl (frame_size s.wal.page_size),
    take-frame,
    drop-frame,
    decoded,
    salts,
    drop-frame,
    i.sealed,
  )

  -- One round of the loop over a whole frame.
  pub replay-frame :
      (fuel total : ℕ) (s' : Progress) (content rest : Bytes)
      → drop (frame_offset s.wal.page_size s.frame) content ≡ frame ++ rest
      → frame_offset s.wal.page_size s.frame + frame_size s.wal.page_size ≤ total
      → take_frame s (chained s image db_size) image.bytes ≡ some s'
      → replay (suc fuel) total s (quiet content) ≡ replay fuel total s' (quiet content)
  unfolding replay read
  replay-frame fuel total s' content rest e room taken =
      rw (fits, read_back)
        (ap
          (λ (o : Option Progress).
            (elim o as (λ x. Io Progress) [ none ↦ pure s | some s'' ↦ replay fuel total s'' ])
              (quiet content))
          (examine-frame ∙ taken))
    where
      fits : leb (frame_offset s.wal.page_size s.frame + frame_size s.wal.page_size) total ≡ true
      fits = ground arith

      read_back :
          take (frame_size s.wal.page_size) (drop (frame_offset s.wal.page_size s.frame) content)
          ≡ frame
      read_back =
          ap (take (frame_size s.wal.page_size)) e
          ∙ take_exact frame rest
              (length-encode_frame s.wal image db_size s.running s.wal.page_size i)
