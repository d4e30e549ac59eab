-- ===== src/Engine/Wal/Torn.antt =====
-- The loop of `Wal::recover` on a transaction that was written in part: it may take frames of it, but it
-- commits none.
use archivum.Base.{
  ℕ, suc, zero, ◌+◌, ◌-◌, ◌<◌, ◌≤◌, ◌≡◌, refl, ◌∙◌, arith, leb, false, List, [], ◌∷◌, ◌++◌, Bytes,
  All, length, length-append, take, drop, take_past, Bool-cases, inl, inr,
}
use archivum.Status.{Result, ok}
use archivum.Vfs.{Disk}
use archivum.Journal.Scan.{quiet}
use archivum.Engine.Wal.{Progress, frame_size, frame_offset, add_pending, replay}
use archivum.Engine.Wal.Operations.{PageImage, encode_frame, encode_frames}
use archivum.Engine.Wal.Image.{IsImage, length-encode_frame}
use archivum.Engine.Wal.Replay.{IsReady, chained, replay-frame}
use archivum.Engine.Wal.Transactions.{take-pending, pending-IsReady, next_offset, drop-next}

-- The loop ends with what it had committed.
abbrev pub Commits : Progress → Result Progress × Disk → Bytes → Type 0
Commits s r content =
    (s' : Progress) × (r ≡ (ok s', quiet content)) × (s'.wal ≡ s.wal) × (s'.valid_end ≡ s.valid_end)

-- No frame fits the rest of the file.
pub replay-short :
    (s : Progress) (fuel total : ℕ) (content : Bytes)
    → total < frame_offset s.wal.page_size s.frame + frame_size s.wal.page_size
    → Commits s (replay (suc fuel) total s (quiet content)) content
unfolding replay
replay-short s fuel total content h = (s, rw no_room, refl, refl)
  where
    no_room : leb (frame_offset s.wal.page_size s.frame + frame_size s.wal.page_size) total ≡ false
    no_room = ground arith

pub replay-torn :
    (s : Progress) (first : PageImage) (rest : List PageImage) (db_size k fuel total : ℕ)
    (content : Bytes)
    → IsReady s
    → All (IsImage s.wal.page_size) (first ∷ rest)
    → k < length (encode_frames s.wal (first ∷ rest) db_size s.running).0
    → k < fuel
    → drop (frame_offset s.wal.page_size s.frame) content
      ≡ take k (encode_frames s.wal (first ∷ rest) db_size s.running).0
    → total ≡ frame_offset s.wal.page_size s.frame + k
    → Commits s (replay fuel total s (quiet content)) content
unfolding encode_frames add_pending
replay-torn s first rest db_size k zero total content r images short enough e t =
    absurd (omega arith)
replay-torn s first [] db_size k (suc fuel) total content r images short enough e t =
    replay-short s fuel total content (omega (arith, short, t, length-append {0} frame [], sized))
  where
    frame : Bytes
    frame = (encode_frame s.wal first db_size s.running).0

    sized : length frame ≡ frame_size s.wal.page_size
    sized = length-encode_frame s.wal first db_size s.running s.wal.page_size images.0
replay-torn s first (next ∷ more) db_size k (suc fuel) total content r images short enough e t =
    elim (Bool-cases (leb (length frame) k)) [
      | inr none_whole ↦ replay-short s fuel total content (ground (arith, t, sized))
      | inl whole ↦
          let h : length frame ≤ k = ground arith in
          let (s', run, same_wal, same_end) =
            replay-torn (add_pending s (chained s first 0)) next more db_size (k - length frame)
              fuel total content (pending-IsReady s (chained s first 0) r) images.1
              (omega (arith, short, size, h)) (omega (arith, enough, sized, h))
              (drop-next s r first 0 images.0 content later (split h))
              (omega (arith, t, h, next_offset s r first 0 images.0 content later (split h))) in
          (s', step h ∙ run, same_wal, same_end)
    ]
  where
    frame : Bytes
    frame = (encode_frame s.wal first 0 s.running).0

    others : Bytes
    others = (encode_frames s.wal (next ∷ more) db_size (encode_frame s.wal first 0 s.running).1).0

    later : Bytes
    later = take (k - length frame) others

    split : length frame ≤ k → drop (frame_offset s.wal.page_size s.frame) content ≡ frame ++ later
    split h = e ∙ take_past k frame others h

    size : length (frame ++ others) ≡ length frame + length others
    size = length-append frame others

    sized : length frame ≡ frame_size s.wal.page_size
    sized = length-encode_frame s.wal first 0 s.running s.wal.page_size images.0

    step :
        length frame ≤ k
        → replay (suc fuel) total s (quiet content)
          ≡ replay fuel total (add_pending s (chained s first 0)) (quiet content)
    step h =
        replay-frame s r first 0 images.0 (omega arith) fuel total
          (add_pending s (chained s first 0)) content later (split h) (omega (arith, t, h, sized))
          (take-pending s first)
