-- ===== src/Journal/Recovery.antt =====
-- `Journal::recover` of engine/src/journal.cpp on the file that holds an image and a tail.
use archivum.Base.{
  ℕ, suc, ◌+◌, ◌-◌, ◌≤◌, ◌<◌, ◌≡◌, refl, sym, ap, ◌∙◌, arith, true, false, List, [], ◌∷◌, ◌++◌,
  Bytes, length, take, drop, length-append, take_exact, drop_exact, ==_refl, replicate, length-take,
  take-append,
}
use mathlib.Core.List.{append-nil, append_assoc}
use archivum.Status.{ok}
use archivum.Vfs.{read, truncate, size, sync, resized}
use archivum.Engine.PageFormat.{bytes_eq}
use archivum.Journal.{Options, RecordRef, make_header, frame, scan, recover, drop_tail, opened}
use archivum.Journal.Scan.{quiet, scan-short, scan-torn, scan-frames}
use archivum.Journal.Image.{Fits, AllFit, frames, image, refs, length-frame, length-make_header}

pub bytes_eq_refl : (bs : Bytes) → bytes_eq bs bs ≡ true
unfolding bytes_eq
bytes_eq_refl [] = refl
bytes_eq_refl (b ∷ bs) = rw (==_refl, bytes_eq_refl bs)

-- Cutting off a tail leaves what stands before it.
drop_tail_lem :
    (kept tail : Bytes)
    → drop_tail (length tail) (length kept) (quiet (kept ++ tail)) ≡ (ok tt, quiet kept)
unfolding drop_tail truncate sync resized
drop_tail_lem kept [] = ap (λ bs. (ok tt, quiet bs)) (append-nil kept)
drop_tail_lem kept (b ∷ tail) =
    ap (λ bs. (ok tt, quiet bs))
      (ap (take (length kept)) (append_assoc kept (b ∷ tail) (replicate zeros 0))
        ∙ take-append kept (b ∷ tail ++ replicate zeros 0))
  where
    zeros : ℕ
    zeros = length kept - length (kept ++ (b ∷ tail))

-- What the loop finds in an image with a tail at which it stops.
module _ (o : Options) (ps : List Bytes) (f : AllFit o ps) (tail : Bytes) where
  abbrev content : Bytes
  content = image ps ++ tail

  abbrev total : ℕ
  total = length content

  -- The tail does not hold a whole record.
  abbrev pub Stops : Type 0
  Stops =
      (fuel off : ℕ) (found : List RecordRef)
      → drop off content ≡ tail
      → total ≡ off + length tail
      → scan o (suc fuel) total off found (quiet content) ≡ (ok (found, off), quiet content)

  image_size : length (image ps) ≡ 16 + length (frames ps)
  image_size = omega (arith, length-append {0} make_header (frames ps), length-make_header)

  enough_rounds : (qs : List Bytes) → length qs ≤ length (frames qs)
  enough_rounds [] = omega arith
  enough_rounds (q ∷ qs) =
      omega (arith, enough_rounds qs, length-append {0} (frame q) (frames qs), length-frame q)

  total-eq : total ≡ length (image ps) + length tail
  total-eq = length-append (image ps) tail

  -- The fuel is the size of the file, and each round takes at least eight bytes of it.
  loop :
      Stops
      → scan o total total 16 [] (quiet content)
        ≡ (ok (refs 16 ps, length (image ps)), quiet content)
  loop stops =
      ap (λ n. scan o n total 16 [] (quiet content)) fuel
      ∙ scan-frames o ps (suc spare) total 16 [] content tail f after_header
          (omega (arith, total-eq, image_size))
      ∙ stops spare (16 + length (frames ps)) (refs 16 ps) after_frames
          (omega (arith, total-eq, image_size))
      ∙ ap (λ n. (ok (refs 16 ps, n), quiet content)) (sym image_size)
    where
      spare : ℕ
      spare = total - length ps - 1

      fuel : total ≡ length ps + suc spare
      fuel = omega (arith, total-eq, image_size, enough_rounds ps)

      after_header : drop 16 content ≡ frames ps ++ tail
      after_header =
          ap (drop 16) (append_assoc make_header (frames ps) tail)
          ∙ drop_exact make_header (frames ps ++ tail) length-make_header

      after_frames : drop (16 + length (frames ps)) content ≡ tail
      after_frames = drop_exact (image ps) tail image_size

  cut_off :
      drop_tail (total - length (image ps)) (length (image ps)) (quiet content)
      ≡ (ok tt, quiet (image ps))
  cut_off =
      ap (λ n. drop_tail n (length (image ps)) (quiet content)) size_left
      ∙ drop_tail_lem (image ps) tail
    where
      size_left : total - length (image ps) ≡ length tail
      size_left = omega (arith, total-eq)

  pub recover_lem :
      Stops
      → recover o (quiet content)
        ≡ (ok (opened (refs 16 ps) (length (image ps)) (length tail) false), quiet (image ps))
  unfolding recover size read
  recover_lem stops =
      rw (start, bytes_eq_refl make_header, length-make_header, loop stops, cut_off)
        (λ i. (ok (opened (refs 16 ps) (length (image ps)) (size_left i) false), quiet (image ps)))
    where
      start : take 16 content ≡ make_header
      start =
          ap (take 16) (append_assoc make_header (frames ps) tail)
          ∙ take_exact make_header (frames ps ++ tail) length-make_header

      size_left : total - length (image ps) ≡ length tail
      size_left = omega (arith, total-eq)

-- Where the file ends after the last record.
Stops-end : (o : Options) (ps : List Bytes) (f : AllFit o ps) → Stops o ps f []
Stops-end o ps f fuel off found e t = scan-short o fuel _ off found _ (omega (arith, t))

-- Where it ends within a record.
Stops-torn :
    (o : Options) (ps : List Bytes) (f : AllFit o ps) (p : Bytes) (k : ℕ)
    → Fits o p
    → k < length (frame p)
    → Stops o ps f (take k (frame p))
Stops-torn o ps f p k fits short fuel off found e t =
    scan-torn o p k fuel _ off found _ fits short e (t ∙ omega (arith, length-take {0} k (frame p)))

-- Opening a journal file after a crash that tore the record being written gives back exactly the
-- records before it, and cuts the torn bytes off the file.
pub recover_torn :
    (o : Options) (ps : List Bytes) (p : Bytes) (k : ℕ)
    → AllFit o ps
    → Fits o p
    → k < length (frame p)
    → recover o (quiet (image ps ++ take k (frame p)))
      ≡ (ok (opened (refs 16 ps) (length (image ps)) k false), quiet (image ps))
recover_torn o ps p k f fits short =
    recover_lem o ps f (take k (frame p)) (Stops-torn o ps f p k fits short)
    ∙ ap (λ n. (ok (opened (refs 16 ps) (length (image ps)) n false), quiet (image ps))) dropped
  where
    dropped : length (take k (frame p)) ≡ k
    dropped = omega (arith, length-take {0} k (frame p))

-- A clean file is given back as it is.
pub recover_clean :
    (o : Options) (ps : List Bytes)
    → AllFit o ps
    → recover o (quiet (image ps))
      ≡ (ok (opened (refs 16 ps) (length (image ps)) 0 false), quiet (image ps))
recover_clean o ps f =
    ap (λ bs. recover o (quiet bs)) (sym (append-nil (image ps)))
    ∙ recover_lem o ps f [] (Stops-end o ps f)
