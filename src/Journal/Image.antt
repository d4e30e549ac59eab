-- ===== src/Journal/Image.antt =====
-- The journal file as the list of its payloads, and the record headers that frames begin with.
use archivum.Base.{
  ℕ, ◌+◌, ◌^◌, ◌≤◌, ◌<◌, ◌≡◌, refl, sym, ap, ◌∙◌, arith, true, List, [], ◌∷◌, ◌++◌, Bytes, length,
  take, drop, length-append, take_exact, drop_exact, ==_refl, All,
}
use mathlib.Core.List.{append-nil, append_assoc}
use archivum.LittleEndian.{put_from, put_u32, get_u32}
use archivum.LittleEndian.Laws.{get_u32-put_u32, length-put_u32}
use archivum.Crc32c.{crc32c}
use archivum.Crc32c.Incremental.{crc32c-lt}
use archivum.Journal.{
  Options, RecordRef, make_header, frame, length_ok, payload_ok, record_header_bytes,
}

-- Payloads that `append` accepts.
pub record Fits (o : Options) (p : Bytes) : Type 0 where
  pub nonempty : 0 < length p
  pub small : length p ≤ o.max_record_bytes
  pub limit : o.max_record_bytes < 2 ^ 32

abbrev pub AllFit : Options → List Bytes → Type 0
AllFit o ps = All (Fits o) ps

abbrev pub frames : List Bytes → Bytes
frames [] = []
frames (p ∷ ps) = frame p ++ frames ps

-- The file that holds exactly these records.
abbrev pub image : List Bytes → Bytes
image ps = make_header ++ frames ps

-- The references to them, from an offset on.
abbrev pub refs : ℕ → List Bytes → List RecordRef
refs off [] = []
refs off (p ∷ ps) =
    record { offset = off; length = length p } ∷ refs (off + record_header_bytes + length p) ps

abbrev pub crc_of : Bytes → ℕ
crc_of p = crc32c (crc32c 0 (put_u32 (length p))) p

-- A record header: the length of the payload and the checksum.
abbrev pub head : Bytes → Bytes
head p = put_u32 (length p) ++ put_u32 (crc_of p)

pub frame-eq : (p : Bytes) → frame p ≡ head p ++ p
unfolding frame
frame-eq p = sym (append_assoc (put_u32 (length p)) (put_u32 (crc_of p)) p)

pub length-head : (p : Bytes) → length (head p) ≡ 8
unfolding put_u32 put_from
length-head p = refl

pub length-frame : (p : Bytes) → length (frame p) ≡ 8 + length p
length-frame p = omega (arith, ap length (frame-eq p), length-append {0} (head p) p, length-head p)

pub frames-append : (ps qs : List Bytes) → frames (ps ++ qs) ≡ frames ps ++ frames qs
frames-append [] qs = refl
frames-append (p ∷ ps) qs =
    ap (◌++◌ (frame p)) (frames-append ps qs) ∙ sym (append_assoc (frame p) (frames ps) (frames qs))

pub length-make_header : length make_header ≡ 16
unfolding make_header put_u32 put_from
length-make_header = refl

pub refs-append :
    (off : ℕ) (ps qs : List Bytes)
    → refs off (ps ++ qs) ≡ refs off ps ++ refs (off + length (frames ps)) qs
refs-append off [] qs = ap (λ k. refs k qs) (omega arith)
refs-append off (p ∷ ps) qs = ap (◌∷◌ (record { offset = off; length = length p })) (
    refs-append (off + 8 + length p) ps qs
    ∙ ap (λ k. refs (off + 8 + length p) ps ++ refs k qs) behind)
  where
    behind : off + 8 + length p + length (frames ps) ≡ off + length (frame p ++ frames ps)
    behind = omega (arith, length-append {0} (frame p) (frames ps), length-frame p)

module _ (p : Bytes) where
  pub head_length : length p < 2 ^ 32 → get_u32 (head p) ≡ length p
  head_length h = get_u32-put_u32 (length p) (put_u32 (crc_of p)) h

  head_crc : get_u32 (drop 4 (head p)) ≡ crc_of p
  head_crc =
      ap get_u32 (
        drop_exact (put_u32 (length p)) (put_u32 (crc_of p)) (length-put_u32 (length p))
        ∙ sym (append-nil (put_u32 (crc_of p))))
      ∙ get_u32-put_u32 (crc_of p) [] (crc32c-lt _ p)

  head_size_field : take 4 (head p) ≡ put_u32 (length p)
  head_size_field = take_exact (put_u32 (length p)) (put_u32 (crc_of p)) (length-put_u32 (length p))

  -- The recovery loop's test accepts a payload under its own header.
  pub payload_ok-head : length p < 2 ^ 32 → payload_ok (head p) p ≡ true
  unfolding payload_ok
  payload_ok-head h = rw (head_length h, head_crc, head_size_field, ==_refl, ==_refl)

pub length_ok-Fits :
    (o : Options) (p : Bytes) (total off : ℕ)
    → Fits o p
    → off + 8 + length p ≤ total
    → length_ok o total off (length p) ≡ true
unfolding length_ok
length_ok-Fits o p total off f h = ground arith
