-- ===== src/Engine/Wal/Image.antt =====
-- The file of a write-ahead log as the bytes of its transactions, and the log that has appended them.
use archivum.Base.{
  ℕ, suc, zero, ◌+◌, ◌-◌, ◌*◌, ◌^◌, ◌<◌, ◌≤◌, ◌≡◌, refl, ap, ◌∙◌, arith, true, List, [], ◌∷◌, ◌++◌,
  Bytes, All, length, length-append,
}
use native.Mathlib.Nat.{suc-mul}
use archivum.Status.{ok}
use archivum.LittleEndian.{put_from, put_u32, put_u64}
use archivum.Engine.PageFormat.{
  page_checksum_ok, DbHeader, decode_db_header, encode_wal_header, WalFrameHeader, frame_bytes,
  encode_frame_header,
}
use archivum.Engine.Wal.{Wal, frame_size, frame_offset}
use archivum.Engine.Wal.Operations.{PageImage, committed, encode_frame, encode_frames, last_bytes}

-- A transaction as `append_transaction` takes it: at least one image.
pub record Transaction : Type 0 where
  pub first : PageImage
  pub rest : List PageImage
  pub db_size : ℕ

abbrev pub images_of : Transaction → List PageImage
images_of t = t.first ∷ t.rest

abbrev pub last_page : List PageImage → ℕ
last_page [] = 0
last_page (image ∷ []) = image.page
last_page (image ∷ next ∷ rest) = last_page (next ∷ rest)

-- An image of a page: of the size of a page, sealed, and of a page that has a number.
pub record IsImage (page_size : ℕ) (image : PageImage) : Type 0 where
  pub length_ok : length image.bytes ≡ page_size
  pub sealed : page_checksum_ok image.bytes ≡ true
  pub page_fits : image.page < 2 ^ 64

-- What the engine appends: its last image is that of page 0, with a header that can be read, and the
-- database has at least one page.
pub record IsTransaction (page_size : ℕ) (t : Transaction) : Type 0 where
  pub images_ok : All (IsImage page_size) (images_of t)
  pub size_fits : t.db_size < 2 ^ 64
  pub some_size : 0 < t.db_size
  pub commit_page : last_page (images_of t) ≡ 0
  pub header : DbHeader
  pub header_ok : decode_db_header (last_bytes (images_of t)) ≡ ok header

-- The log behind a transaction that was appended.
unfoldable pub after : Wal → Transaction → Wal
unfolding committed
after w t =
    (committed (ok tt) w (images_of t) t.db_size (encode_frames w (images_of t) t.db_size w.chain).1
      (record { present = true; content = []; outcomes = [] })).1

unfoldable pub after_all : Wal → List Transaction → Wal
after_all w [] = w
after_all w (t ∷ ts) = after_all (after w t) ts

-- The bytes of a transaction, and of all of them in a row.
abbrev pub bytes_of : Wal → Transaction → Bytes
bytes_of w t = (encode_frames w (images_of t) t.db_size w.chain).0

unfoldable pub bytes_of_all : Wal → List Transaction → Bytes
bytes_of_all w [] = []
bytes_of_all w (t ∷ ts) = bytes_of w t ++ bytes_of_all (after w t) ts

-- The file of a log.
abbrev pub log_file : Wal → List Transaction → Bytes
log_file w ts = encode_wal_header w.header ++ bytes_of_all w ts

pub length-frame_bytes : (fh : WalFrameHeader) (c : ℕ) → length (frame_bytes fh c) ≡ 32
unfolding frame_bytes put_u32 put_u64 put_from
length-frame_bytes fh c = refl

pub length-encode_frame :
    (w : Wal) (image : PageImage) (db_size running page_size : ℕ)
    → IsImage page_size image
    → length (encode_frame w image db_size running).0 ≡ frame_size page_size
unfolding encode_frame encode_frame_header
length-encode_frame w image db_size running page_size i =
    length-append _ image.bytes ∙ omega (arith, length-frame_bytes, i.length_ok)

-- A frame stands behind the one before it.
pub frame_offset-suc :
    (page_size n : ℕ)
    → 1 ≤ n
    → frame_offset page_size (n + 1) ≡ frame_offset page_size n + frame_size page_size
unfolding frame_offset
frame_offset-suc page_size zero h = absurd (omega arith)
frame_offset-suc page_size (suc n) h =
    ap (λ k. 48 + k * frame_size page_size) first
    ∙ omega (arith, suc-mul n (frame_size page_size))
    ∙ ap (λ k. 48 + k * frame_size page_size + frame_size page_size) second
  where
    first : suc n + 1 - 1 ≡ suc n
    first = omega arith

    second : n ≡ suc n - 1
    second = omega arith
