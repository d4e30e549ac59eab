-- ===== src/Engine/PageFormat/Chain.antt =====
-- Frames of the log: they read back under the checksum that they were chained from, and under no
-- other.
use archivum.Base.{
  ℕ, ◌^◌, ◌<◌, ◌≡◌, ◌≢◌, refl, sym, ap, ◌∙◌, arith, false, ◌==◌, ltb, Bytes, IsByte, IsBytes, [],
  ◌++◌, length, take, drop, ==_refl, All-append, replicate,
}
use mathlib.Core.List.{append_assoc}
use archivum.Status.{ok, err, corrupt}
use archivum.LittleEndian.{put_from, put_u32, put_u64, get_u32}
use archivum.LittleEndian.Laws.{
  get_u32-put_u32, get_u64-put_u64, length-put_u32, put_u32-IsBytes, put_u64-IsBytes,
}
use archivum.Crc32c.{crc32c}
use archivum.Crc32c.Incremental.{crc32c-lt, crc32c-append}
use archivum.Crc32c.Detection.{crc32c_detects_burst}
use archivum.Engine.PageFormat.{
  WalFrameHeader, chained_checksum, frame_bytes, encode_frame_header, decode_frame_header,
  read_frame_header,
}

pub record IsFrameHeader (fh : WalFrameHeader) : Type 0 where
  pub page_no_fits : fh.page_no < 2 ^ 64
  pub db_size_fits : fh.db_size_after_commit < 2 ^ 64
  pub salt1_fits : fh.salt1 < 2 ^ 32
  pub salt2_fits : fh.salt2 < 2 ^ 32

-- The checksum covers the predecessor's checksum, the header and the page, in this order.
chained-eq :
    (header page : Bytes) (previous : ℕ)
    → IsBytes header
    → chained_checksum header page previous ≡ crc32c 0 (put_u32 previous ++ (header ++ page))
unfolding chained_checksum
chained-eq header page previous v =
    ap (λ c. crc32c c page)
      (crc32c-append 0 (put_u32 previous) header (omega arith) (put_u32-IsBytes previous))
    ∙ crc32c-append 0 (put_u32 previous ++ header) page (omega arith)
        (All-append IsByte (put_u32 previous) header (put_u32-IsBytes previous) v)
    ∙ ap (crc32c 0) (append_assoc (put_u32 previous) header page)

pub chained-lt :
    (header page : Bytes) (previous : ℕ) → chained_checksum header page previous < 2 ^ 32
unfolding chained_checksum
chained-lt header page previous = crc32c-lt _ page

put_u32_injective : (a b : ℕ) → a < 2 ^ 32 → b < 2 ^ 32 → put_u32 a ≡ put_u32 b → a ≡ b
put_u32_injective a b p q e =
    sym (get_u32-put_u32 a [] p) ∙ ap (λ bs. get_u32 (bs ++ [])) e ∙ get_u32-put_u32 b [] q

chained_differs :
    (header page : Bytes) (a b : ℕ)
    → IsBytes header
    → IsBytes page
    → a < 2 ^ 32
    → b < 2 ^ 32
    → a ≢ b
    → chained_checksum header page a ≢ chained_checksum header page b
chained_differs header page a b vh vp p q differ same =
    crc32c_detects_burst 0 [] (put_u32 a) (put_u32 b) (header ++ page) (omega arith) tt
      (put_u32-IsBytes a) (put_u32-IsBytes b) (All-append IsByte header page vh vp)
      (length-put_u32 a ∙ sym (length-put_u32 b)) (omega (arith, length-put_u32 a))
      (λ e. differ (put_u32_injective a b p q e))
      (sym (chained-eq header page a vh) ∙ same ∙ chained-eq header page b vh)

frame_bytes-IsBytes : (fh : WalFrameHeader) (c : ℕ) → IsBytes (frame_bytes fh c)
unfolding frame_bytes
frame_bytes-IsBytes fh c = All-append IsByte (put_u64 fh.page_no) _ (put_u64-IsBytes fh.page_no) (
    All-append IsByte (put_u64 fh.db_size_after_commit) _ (put_u64-IsBytes fh.db_size_after_commit)
      (All-append IsByte (put_u32 fh.salt1) _ (put_u32-IsBytes fh.salt1) (
        All-append IsByte (put_u32 fh.salt2) _ (put_u32-IsBytes fh.salt2)
          (All-append IsByte (put_u32 c) _ (put_u32-IsBytes c) (omega arith)))))

module _ (fh : WalFrameHeader) (page : Bytes) (v : IsFrameHeader fh) where
  abbrev sum : ℕ → ℕ
  sum previous = chained_checksum (frame_bytes fh 0) page previous

  long : (c : ℕ) → ltb (length (frame_bytes fh c)) 32 ≡ false
  unfolding frame_bytes put_u32 put_u64 put_from
  long c = refl

  stored_back : (c : ℕ) → c < 2 ^ 32 → get_u32 (drop 24 (frame_bytes fh c)) ≡ c
  unfolding frame_bytes put_u32 put_u64 put_from
  stored_back c h = get_u32-put_u32 c (replicate 4 0 ++ []) h

  -- With its checksum field cleared a frame is what the checksum was taken over.
  cleared :
      (c : ℕ)
      → take 24 (frame_bytes fh c) ++ (replicate 4 0 ++ take 4 (drop 28 (frame_bytes fh c)))
        ≡ frame_bytes fh 0
  unfolding frame_bytes put_u32 put_u64 put_from
  cleared c = refl

  fields_back : (c : ℕ) → read_frame_header (frame_bytes fh 0) c ≡ record fh { checksum = c }
  unfolding read_frame_header frame_bytes put_u32 put_u64 put_from
  fields_back c = λ i. record {
    page_no = get_u64-put_u64 fh.page_no (drop 8 (frame_bytes fh 0)) v.page_no_fits i;
    db_size_after_commit =
        get_u64-put_u64 fh.db_size_after_commit (drop 16 (frame_bytes fh 0)) v.db_size_fits i;
    salt1 = get_u32-put_u32 fh.salt1 (drop 20 (frame_bytes fh 0)) v.salt1_fits i;
    salt2 = get_u32-put_u32 fh.salt2 (drop 24 (frame_bytes fh 0)) v.salt2_fits i;
    checksum = c;
  }

  -- A frame reads back, with its checksum, under the predecessor that it was written after.
  pub decode-encode_frame_header :
      (previous : ℕ)
      → decode_frame_header (encode_frame_header fh page previous).0 page previous
        ≡ ok (encode_frame_header fh page previous).1
  unfolding decode_frame_header encode_frame_header
  decode-encode_frame_header previous =
      rw (
        long,
        stored_back (sum previous) (chained-lt _ page previous),
        cleared,
        ==_refl,
        fields_back,
      )

  -- A frame is refused behind a frame with another checksum: decoded under a checksum of its predecessor other
  -- than the one that it was written under, it is reported as corrupt. The fields of the frame fit their machine
  -- integers, the page is made of bytes, and both checksums have 32 bits.
  pub decode_frame_header-other :
      (previous other : ℕ)
      → IsBytes page
      → previous < 2 ^ 32
      → other < 2 ^ 32
      → previous ≢ other
      → decode_frame_header (encode_frame_header fh page previous).0 page other ≡ err corrupt
  unfolding decode_frame_header encode_frame_header
  decode_frame_header-other previous other vp p q differ =
      rw (long, stored_back (sum previous) (chained-lt _ page previous), cleared, eq_false)
    where
      eq_false : (sum other == sum previous) ≡ false
      eq_false = unequal _ _ (
          chained_differs (frame_bytes fh 0) page other previous (frame_bytes-IsBytes fh 0) vp q p
            (λ e. differ (sym e)))
        where
          unequal : (a b : ℕ) → a ≢ b → (a == b) ≡ false
          unequal a b h = ground arith
