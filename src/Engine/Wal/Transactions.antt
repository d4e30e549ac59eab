-- ===== src/Engine/Wal/Transactions.antt =====
-- The loop of `Wal::recover` over the frames of one transaction: whole, or torn.
use archivum.Base.{
  ℕ, suc, ◌+◌, ◌-◌, ◌^◌, ◌<◌, ◌≤◌, ◌==◌, ◌≡◌, refl, sym, ap, ◌∙◌, arith, true, false, some, List,
  [], ◌∷◌, ◌++◌, Bytes, All, length, length-append, drop, drop_add, drop-append,
}
use mathlib.Core.List.{append-nil, append_assoc}
use native.Mathlib.Nat.{suc-add}
use archivum.Status.{ok}
use archivum.Journal.Scan.{quiet}
use archivum.Engine.PageFormat.{DbHeader, decode_db_header, WalFrameHeader}
use archivum.Engine.Wal.{
  WalCommit, Progress, frame_size, frame_offset, publish, add_pending, add_commit, take_frame,
  replay,
}
use archivum.Engine.Wal.Operations.{
  PageImage, commit_of, number_frames, encode_frame, encode_frames, last_bytes,
}
use archivum.Engine.Wal.Image.{IsImage, last_page, length-encode_frame, frame_offset-suc}
use archivum.Engine.Wal.Replay.{IsReady, chained, replay-frame}

-- The loop behind a commit of frames, at the next frame number.
abbrev pub behind_commit : Progress → List (ℕ × ℕ) → ℕ → ℕ → ℕ → Bytes → Progress
behind_commit s frames next end db_size page = record s {
  wal = record (publish s.wal frames (commit_of (next - 1) db_size page)) { chain = end };
  pending = [];
  frame = next;
  valid_end = frame_offset s.wal.page_size next;
  running = end;
}

-- The loop behind the images of a transaction.
abbrev pub behind : Progress → List PageImage → ℕ → Progress
behind s images db_size =
    behind_commit s (s.pending ++ number_frames s.frame images) (s.frame + length images)
      (encode_frames s.wal images db_size s.running).1 db_size (last_bytes images)

pub take-pending :
    (s : Progress) (image : PageImage)
    → take_frame s (chained s image 0) image.bytes ≡ some (add_pending s (chained s image 0))
unfolding take_frame
take-pending s image = refl

-- What the loop takes from the header of page 0 is what an append takes from it.
commit-eq :
    (frame next db_size : ℕ) (page : Bytes) (h : DbHeader)
    → decode_db_header page ≡ ok h
    → next ≡ frame + 1
    → ◌≡◌ {A = WalCommit}
        (record {
          frame = frame;
          db_size = db_size;
          change_counter = h.change_counter;
          commit_time_us = h.commit_time_us;
        })
        (commit_of (next - 1) db_size page)
unfolding commit_of
commit-eq frame next db_size page h e step =
    rw (e, commit_of)
      (λ i. record {
        frame = same i;
        db_size = db_size;
        change_counter = h.change_counter;
        commit_time_us = h.commit_time_us;
      })
  where
    same : frame ≡ next - 1
    same = omega arith

add_commit-behind :
    (s : Progress) (image : PageImage) (db_size : ℕ) (h : DbHeader)
    → decode_db_header image.bytes ≡ ok h
    → 1 ≤ s.frame
    → add_commit s (chained s image db_size) h ≡ behind s (image ∷ []) db_size
unfolding add_commit number_frames encode_frames
add_commit-behind s image db_size h e pos = λ i. record s {
  wal =
      record (publish s.wal (s.pending ++ (image.page, s.frame) ∷ [])
        (commit-eq s.frame (s.frame + 1) db_size image.bytes h e refl i)) {
          chain = (encode_frame s.wal image db_size s.running).1;
        };
  pending = [];
  frame = s.frame + 1;
  valid_end = sym (frame_offset-suc s.wal.page_size s.frame pos) i;
  running = (encode_frame s.wal image db_size s.running).1;
}

take-commit :
    (s : Progress) (image : PageImage) (db_size : ℕ) (h : DbHeader)
    → 0 < db_size
    → image.page ≡ 0
    → decode_db_header image.bytes ≡ ok h
    → 1 ≤ s.frame
    → take_frame s (chained s image db_size) image.bytes ≡ some (behind s (image ∷ []) db_size)
unfolding take_frame
take-commit s image db_size h some_size first e pos =
    rw (sized, is_first, e) (ap some (add_commit-behind s image db_size h e pos))
  where
    is_first : (image.page == 0) ≡ true
    is_first = ground arith

    sized : (db_size == 0) ≡ false
    sized = ground arith

-- The loop is ready behind a frame that does not commit.
pub pending-IsReady : (s : Progress) (fh : WalFrameHeader) → IsReady s → IsReady (add_pending s fh)
unfolding add_pending
pending-IsReady s fh r = record {
  frame_pos = omega arith;
  salt1_fits = r.salt1_fits;
  salt2_fits = r.salt2_fits;
}

-- Frames behind the first are those of the loop behind it.
behind-pending :
    (s : Progress) (first next : PageImage) (more : List PageImage) (db_size : ℕ)
    → behind (add_pending s (chained s first 0)) (next ∷ more) db_size
      ≡ behind s (first ∷ next ∷ more) db_size
unfolding add_pending number_frames encode_frames encode_frame
behind-pending s first next more db_size = λ i.
    behind_commit s
      (append_assoc s.pending ((first.page, s.frame) ∷ [])
        (number_frames (s.frame + 1) (next ∷ more)) i)
      (moved i) (encode_frames s.wal (first ∷ next ∷ more) db_size s.running).1 db_size
      (last_bytes (next ∷ more))
  where
    moved : s.frame + 1 + length (next ∷ more) ≡ s.frame + length (first ∷ next ∷ more)
    moved = omega arith

-- Where the frame is that follows one frame.
module _ (s : Progress) (r : IsReady s) (image : PageImage) (db_size : ℕ)
    (i : IsImage s.wal.page_size image) (content rest : Bytes)
    (e : drop (frame_offset s.wal.page_size s.frame) content
      ≡ (encode_frame s.wal image db_size s.running).0 ++ rest) where
  pub next_offset :
      frame_offset s.wal.page_size (s.frame + 1)
      ≡ frame_offset s.wal.page_size s.frame + length (encode_frame s.wal image db_size s.running).0
  next_offset =
      frame_offset-suc s.wal.page_size s.frame r.frame_pos
      ∙ ap (λ n. frame_offset s.wal.page_size s.frame + n)
          (sym (length-encode_frame s.wal image db_size s.running s.wal.page_size i))

  pub drop-next : drop (frame_offset s.wal.page_size (s.frame + 1)) content ≡ rest
  drop-next =
      ap (λ n. drop n content) next_offset
      ∙ drop_add (frame_offset s.wal.page_size s.frame)
          (length (encode_frame s.wal image db_size s.running).0) content
      ∙ ap (drop (length (encode_frame s.wal image db_size s.running).0)) e
      ∙ drop-append (encode_frame s.wal image db_size s.running).0 rest

-- A whole transaction is taken.
pub replay-transaction :
    (s : Progress) (first : PageImage) (rest : List PageImage) (db_size fuel total : ℕ)
    (h : DbHeader) (content tail : Bytes)
    → IsReady s
    → All (IsImage s.wal.page_size) (first ∷ rest)
    → db_size < 2 ^ 64
    → 0 < db_size
    → last_page (first ∷ rest) ≡ 0
    → decode_db_header (last_bytes (first ∷ rest)) ≡ ok h
    → drop (frame_offset s.wal.page_size s.frame) content
      ≡ (encode_frames s.wal (first ∷ rest) db_size s.running).0 ++ tail
    → frame_offset s.wal.page_size s.frame
        + length (encode_frames s.wal (first ∷ rest) db_size s.running).0
      ≤ total
    → replay (length (first ∷ rest) + fuel) total s (quiet content)
      ≡ replay fuel total (behind s (first ∷ rest) db_size) (quiet content)
unfolding encode_frames add_pending
replay-transaction s first [] db_size fuel total h content tail r images fits some_size zero_page
      ok_h e room =
    ap (λ n. replay n total s (quiet content)) one
    ∙ replay-frame s r first db_size images.0 fits fuel total (behind s (first ∷ []) db_size)
        content tail (e ∙ ap (λ bs. bs ++ tail) (append-nil _))
        (omega (
          arith,
          room,
          length-append {0} frame [],
          length-encode_frame s.wal first db_size s.running s.wal.page_size images.0,
        ))
        (take-commit s first db_size h some_size zero_page ok_h r.frame_pos)
  where
    frame : Bytes
    frame = (encode_frame s.wal first db_size s.running).0

    one : 1 + fuel ≡ suc fuel
    one = omega arith
replay-transaction s first (next ∷ more) db_size fuel total h content tail r images fits some_size
      zero_page ok_h e room =
    ap (λ n. replay n total s (quiet content)) (suc-add (length (next ∷ more)) fuel)
    ∙ replay-frame s r first 0 images.0 (omega arith) (length (next ∷ more) + fuel) total
        (add_pending s (chained s first 0)) content later split (omega (arith, room, size, sized))
        (take-pending s first)
    ∙ replay-transaction (add_pending s (chained s first 0)) next more db_size fuel total h content
        tail (pending-IsReady s (chained s first 0) r) images.1 fits some_size zero_page ok_h
        (drop-next s r first 0 images.0 content later split)
        (omega (arith, room, size, sized, next_offset s r first 0 images.0 content later split))
    ∙ ap (λ s'. replay fuel total s' (quiet content)) (behind-pending s first next more db_size)
  where
    frame : Bytes
    frame = (encode_frame s.wal first 0 s.running).0

    others : Bytes
    others = (encode_frames s.wal (next ∷ more) db_size (encode_frame s.wal first 0 s.running).1).0

    later : Bytes
    later = others ++ tail

    split : drop (frame_offset s.wal.page_size s.frame) content ≡ frame ++ later
    split = e ∙ append_assoc frame others tail

    size : length (frame ++ others) ≡ length frame + length others
    size = length-append frame others

    sized : length frame ≡ frame_size s.wal.page_size
    sized = length-encode_frame s.wal first 0 s.running s.wal.page_size images.0
