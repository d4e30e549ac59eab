-- ===== src/Engine/Wal/Logs.antt =====
-- The loop of `Wal::recover` over the transactions of a log, and the log that it rebuilds.
use native.Mathlib.Nat.{add_assoc}
use mathlib.Core.List.{append_assoc}
use archivum.Base.{
  ℕ, suc, ◌+◌, ◌-◌, ◌^◌, ◌<◌, ◌≤◌, ◌≡◌, refl, sym, ap, ◌∙◌, arith, List, [], ◌∷◌, ◌++◌, Bytes, All,
  length, length-append, drop, drop_add, drop-append,
}
use archivum.Base.Int.{pos}
use archivum.Engine.PageFormat.{decode_db_header}
use archivum.Status.{ok, err}
use archivum.Journal.Scan.{quiet}
use archivum.Engine.Wal.{Wal, WalCommit, Progress, frame_offset, publish, replay}
use archivum.Engine.Wal.Operations.{
  PageImage, commit_of, encode_frame, encode_frames, last_bytes, size_if_last,
}
use archivum.Engine.Wal.Image.{
  Transaction, IsTransaction, images_of, IsImage, after, after_all, bytes_of, bytes_of_all,
  length-encode_frame, frame_offset-suc,
}
use archivum.Engine.Wal.Replay.{IsReady}
use archivum.Engine.Wal.Transactions.{behind, replay-transaction}

-- What the constructor and every append establish of a log.
pub record IsLog (w : Wal) : Type 0 where
  pub next_is : w.next_frame ≡ w.last_commit + 1
  pub salt1_fits : w.header.salt1 < 2 ^ 32
  pub salt2_fits : w.header.salt2 < 2 ^ 32

-- The loop where it has rebuilt a log.
abbrev pub at : Wal → Progress
at w = record {
  wal = record w { next_frame = 1 };
  pending = [];
  frame = w.next_frame;
  valid_end = frame_offset w.page_size w.next_frame;
  running = w.chain;
}

pub at-IsReady : (w : Wal) → IsLog w → IsReady (at w)
at-IsReady w l = record {
  frame_pos = omega (arith, l.next_is);
  salt1_fits = l.salt1_fits;
  salt2_fits = l.salt2_fits;
}

commit_of-frame : (frame db_size : ℕ) (page : Bytes) → (commit_of frame db_size page).frame ≡ frame
unfolding commit_of
commit_of-frame frame db_size page =
    elim (decode_db_header page)
      as (λ r.
        WalCommit.frame (elim r as (λ x. WalCommit) [
          | ok h ↦ record {
            frame = frame;
            db_size = db_size;
            change_counter = h.change_counter;
            commit_time_us = h.commit_time_us;
          }
          | err e ↦ record {
            frame = frame;
            db_size = db_size;
            change_counter = 0;
            commit_time_us = pos 0;
          }
        ])
        ≡ frame) [ ok h ↦ refl | err e ↦ refl ]

pub after-IsLog : (w : Wal) (t : Transaction) → IsLog w → IsLog (after w t)
unfolding after publish
after-IsLog w t l = record {
  next_is =
      ap (λ n. n + 1)
        (sym (
          commit_of-frame (w.next_frame + length (images_of t) - 1) t.db_size
            (last_bytes (images_of t))));
  salt1_fits = l.salt1_fits;
  salt2_fits = l.salt2_fits;
}

behind-after : (w : Wal) (t : Transaction) → behind (at w) (images_of t) t.db_size ≡ at (after w t)
unfolding after publish encode_frames encode_frame
behind-after w t = λ i. record {
  wal = record (after w t) { next_frame = 1 };
  pending = [];
  frame = next i;
  valid_end = frame_offset w.page_size (next i);
  running = (encode_frames w (images_of t) t.db_size w.chain).1;
}
  where
    next : w.next_frame + length (images_of t) ≡ w.next_frame + length (images_of t) - 1 + 1
    next = omega arith

-- The frames of a transaction lie between the offsets of their numbers.
pub offset-images :
    (w : Wal) (images : List PageImage) (db_size running page_size n : ℕ)
    → All (IsImage page_size) images
    → 1 ≤ n
    → frame_offset page_size (n + length images)
      ≡ frame_offset page_size n + length (encode_frames w images db_size running).0
unfolding encode_frames
offset-images w [] db_size running page_size n a h = ap (frame_offset page_size) same ∙ omega arith
  where
    same : n + 0 ≡ n
    same = omega arith
offset-images w (image ∷ rest) db_size running page_size n a h =
    ap (frame_offset page_size) moved
    ∙ offset-images w rest db_size (encode_frame w image (size_if_last rest db_size) running).1
        page_size (n + 1) a.1 (omega arith)
    ∙ omega (
      arith,
      frame_offset-suc page_size n h,
      length-encode_frame w image (size_if_last rest db_size) running page_size a.0,
      length-append {0} frame others,
    )
  where
    moved : n + suc (length rest) ≡ n + 1 + length rest
    moved = omega arith

    frame : Bytes
    frame = (encode_frame w image (size_if_last rest db_size) running).0

    others : Bytes
    others =
        (encode_frames w rest db_size
          (encode_frame w image (size_if_last rest db_size) running).1).0

next-after :
    (w : Wal) (t : Transaction) → (after w t).next_frame ≡ w.next_frame + length (images_of t)
unfolding after
next-after w t = omega arith

-- The offset behind a transaction.
pub offset-after :
    (w : Wal) (t : Transaction)
    → IsLog w
    → IsTransaction w.page_size t
    → frame_offset w.page_size (after w t).next_frame
      ≡ frame_offset w.page_size w.next_frame + length (bytes_of w t)
offset-after w t l v =
    ap (frame_offset w.page_size) (next-after w t)
    ∙ offset-images w (images_of t) t.db_size w.chain w.page_size w.next_frame v.images_ok
        (omega (arith, l.next_is))

pub after_all-IsLog : (w : Wal) (ts : List Transaction) → IsLog w → IsLog (after_all w ts)
unfolding after_all
after_all-IsLog w [] l = l
after_all-IsLog w (t ∷ ts) l = after_all-IsLog (after w t) ts (after-IsLog w t l)

pub offset-after_all :
    (w : Wal) (ts : List Transaction)
    → IsLog w
    → All (IsTransaction w.page_size) ts
    → frame_offset w.page_size (after_all w ts).next_frame
      ≡ frame_offset w.page_size w.next_frame + length (bytes_of_all w ts)
unfolding after_all bytes_of_all after
offset-after_all w [] l v = omega arith
offset-after_all w (t ∷ ts) l v =
    offset-after_all (after w t) ts (after-IsLog w t l) v.1
    ∙ omega (
      arith,
      offset-after w t l v.0,
      length-append {0} (bytes_of w t) (bytes_of_all (after w t) ts),
    )

-- How many frames the transactions have.
abbrev pub rounds : List Transaction → ℕ
rounds [] = 0
rounds (t ∷ ts) = length (images_of t) + rounds ts

images-fit :
    (w : Wal) (images : List PageImage) (db_size running page_size : ℕ)
    → All (IsImage page_size) images
    → length images ≤ length (encode_frames w images db_size running).0
unfolding encode_frames
images-fit w [] db_size running page_size a = omega arith
images-fit w (image ∷ rest) db_size running page_size a = omega (
  arith,
  images-fit w rest db_size (encode_frame w image (size_if_last rest db_size) running).1 page_size
      a.1,
  length-encode_frame w image (size_if_last rest db_size) running page_size a.0,
  length-append {0} (encode_frame w image (size_if_last rest db_size) running).0
      (encode_frames w rest db_size (encode_frame w image (size_if_last rest db_size) running).1).0,
)

pub rounds-fit :
    (w : Wal) (ts : List Transaction)
    → All (IsTransaction w.page_size) ts
    → rounds ts ≤ length (bytes_of_all w ts)
unfolding bytes_of_all after
rounds-fit w [] v = omega arith
rounds-fit w (t ∷ ts) v = omega (
  arith,
  images-fit w (images_of t) t.db_size w.chain w.page_size v.0.images_ok,
  rounds-fit (after w t) ts v.1,
  length-append {0} (bytes_of w t) (bytes_of_all (after w t) ts),
)

-- The loop rebuilds the log that appended the transactions.
pub replay-log :
    (w : Wal) (ts : List Transaction) (fuel total : ℕ) (content tail : Bytes)
    → IsLog w
    → All (IsTransaction w.page_size) ts
    → drop (frame_offset w.page_size w.next_frame) content ≡ bytes_of_all w ts ++ tail
    → frame_offset w.page_size w.next_frame + length (bytes_of_all w ts) ≤ total
    → replay (rounds ts + fuel) total (at w) (quiet content)
      ≡ replay fuel total (at (after_all w ts)) (quiet content)
unfolding bytes_of_all after_all after encode_frame encode_frames
replay-log w [] fuel total content tail l v e room =
    ap (λ n. replay n total (at w) (quiet content)) (omega arith)
replay-log w (t ∷ ts) fuel total content tail l v e room =
    ap (λ n. replay n total (at w) (quiet content))
      (add_assoc (length (images_of t)) (rounds ts) fuel)
    ∙ replay-transaction (at w) t.first t.rest t.db_size (rounds ts + fuel) total v.0.header content
        later (at-IsReady w l) v.0.images_ok v.0.size_fits v.0.some_size v.0.commit_page
        v.0.header_ok split (omega (arith, room, size))
    ∙ ap (λ s. replay (rounds ts + fuel) total s (quiet content)) (behind-after w t)
    ∙ replay-log (after w t) ts fuel total content tail (after-IsLog w t l) v.1 behind_it
        (omega (arith, room, size, offset-after w t l v.0))
  where
    later : Bytes
    later = bytes_of_all (after w t) ts ++ tail

    split : drop (frame_offset w.page_size w.next_frame) content ≡ bytes_of w t ++ later
    split = e ∙ append_assoc (bytes_of w t) (bytes_of_all (after w t) ts) tail

    size :
        length (bytes_of w t ++ bytes_of_all (after w t) ts)
        ≡ length (bytes_of w t) + length (bytes_of_all (after w t) ts)
    size = length-append (bytes_of w t) (bytes_of_all (after w t) ts)

    behind_it : drop (frame_offset w.page_size (after w t).next_frame) content ≡ later
    behind_it =
        ap (λ n. drop n content) (offset-after w t l v.0)
        ∙ drop_add (frame_offset w.page_size w.next_frame) (length (bytes_of w t)) content
        ∙ ap (drop (length (bytes_of w t))) split
        ∙ drop-append (bytes_of w t) later
