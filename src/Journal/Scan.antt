-- ===== src/Journal/Scan.antt =====
-- The recovery loop of engine/src/journal.cpp on a file of which nothing is refused: it takes the
-- records one by one and stops at a torn one.
use archivum.Base.{
  ℕ, suc, ◌+◌, ◌^◌, ◌≤◌, ◌<◌, ◌≡◌, sym, ap, ◌∙◌, arith, true, false, leb, List, [], ◌∷◌, ◌++◌,
  Bytes, length, take, drop, length-append, take_exact, drop_exact, drop_add, take-append,
  drop-append, take-take, Bool-cases, inl, inr,
}
use mathlib.Core.List.{append-nil, append_assoc}
use native.Mathlib.Nat.{suc-add, zero-add}
use archivum.Status.{ok}
use archivum.Vfs.{Disk, read}
use archivum.Journal.{Options, RecordRef, frame, length_ok, scan}
use archivum.Journal.Image.{
  Fits, AllFit, frames, refs, head, frame-eq, length-head, length-frame, head_length,
  payload_ok-head, length_ok-Fits,
}

-- A disk whose operating system refuses nothing.
abbrev pub quiet : Bytes → Disk
quiet content = record { present = true; content = content; outcomes = [] }

module _ (o : Options) (p : Bytes) (f : Fits o p) where
  fits_u32 : length p < 2 ^ 32
  fits_u32 = omega (arith, f.small, f.limit)

  -- One round of the loop over a whole record.
  scan-step :
      (fuel total off : ℕ) (found : List RecordRef) (content rest : Bytes)
      → drop off content ≡ frame p ++ rest
      → off + 8 + length p ≤ total
      → scan o (suc fuel) total off found (quiet content)
        ≡ scan o fuel total
            (off + 8 + length p)
            (found ++ record { offset = off; length = length p } ∷ [])
            (quiet content)
  unfolding scan read
  scan-step fuel total off found content rest e h = rw (
    room,
    first,
    length-head p,
    head_length p fits_u32,
    length_ok-Fits o p total off f h,
    second,
    payload_ok-head p fits_u32,
  )
    where
      room : leb (off + 8) total ≡ true
      room = ground arith

      split : drop off content ≡ head p ++ (p ++ rest)
      split = e ∙ ap (λ bs. bs ++ rest) (frame-eq p) ∙ append_assoc (head p) p rest

      first : take 8 (drop off content) ≡ head p
      first = ap (take 8) split ∙ take_exact (head p) (p ++ rest) (length-head p)

      second : take (length p) (drop (off + 8) content) ≡ p
      second =
          ap (take (length p)) (
            drop_add off 8 content
            ∙ ap (drop 8) split
            ∙ drop_exact (head p) (p ++ rest) (length-head p))
          ∙ take-append p rest

-- The loop ends where no record header fits the rest of the file.
pub scan-short :
    (o : Options) (fuel total off : ℕ) (found : List RecordRef) (content : Bytes)
    → total < off + 8
    → scan o (suc fuel) total off found (quiet content) ≡ (ok (found, off), quiet content)
unfolding scan
scan-short o fuel total off found content h = rw no_room
  where
    no_room : leb (off + 8) total ≡ false
    no_room = ground arith

-- The loop ends at a record that was written in part only.
pub scan-torn :
    (o : Options) (p : Bytes) (k fuel total off : ℕ) (found : List RecordRef) (content : Bytes)
    → Fits o p
    → k < length (frame p)
    → drop off content ≡ take k (frame p)
    → total ≡ off + k
    → scan o (suc fuel) total off found (quiet content) ≡ (ok (found, off), quiet content)
unfolding scan read
scan-torn o p k fuel total off found content f short e t = elim (Bool-cases (leb (off + 8) total)) [
  | inl room ↦
      rw (room, first room, length-head p, head_length p (omega (arith, f.small, f.limit)), cut)
  | inr none_left ↦ rw none_left
]
  where
    first : leb (off + 8) total ≡ true → take 8 (drop off content) ≡ head p
    first room =
        ap (take 8) e
        ∙ take-take 8 k (frame p) (ground arith)
        ∙ ap (take 8) (frame-eq p)
        ∙ take_exact (head p) p (length-head p)

    cut : length_ok o total off (length p) ≡ false
    cut = unfold length_ok in ground (arith, length-frame p)

resume :
    (o : Options) (fuel total : ℕ) (content : Bytes) {a b : ℕ} {xs ys : List RecordRef}
    → a ≡ b
    → xs ≡ ys
    → scan o fuel total a xs (quiet content) ≡ scan o fuel total b ys (quiet content)
resume o fuel total content e h = λ i. scan o fuel total (e i) (h i) (quiet content)

-- All the records of an image are taken.
pub scan-frames :
    (o : Options) (ps : List Bytes) (fuel total off : ℕ) (found : List RecordRef)
    (content rest : Bytes)
    → AllFit o ps
    → drop off content ≡ frames ps ++ rest
    → off + length (frames ps) ≤ total
    → scan o (length ps + fuel) total off found (quiet content)
      ≡ scan o fuel total (off + length (frames ps)) (found ++ refs off ps) (quiet content)
scan-frames o [] fuel total off found content rest f e h =
    ap (λ n. scan o n total off found (quiet content)) (zero-add fuel)
    ∙ resume o fuel total content (omega arith) (sym (append-nil found))
scan-frames o (p ∷ ps) fuel total off found content rest f e h =
    ap (λ n. scan o n total off found (quiet content)) (suc-add (length ps) fuel)
    ∙ scan-step o p f.0 (length ps + fuel) total off found content (frames ps ++ rest)
        (e ∙ append_assoc (frame p) (frames ps) rest) (omega (arith, size))
    ∙ scan-frames o ps fuel total (off + 8 + length p)
        (found ++ record { offset = off; length = length p } ∷ []) content rest f.1 behind
        (omega (arith, size))
    ∙ resume o fuel total content (omega (arith, size))
        (append_assoc found _ (refs (off + 8 + length p) ps))
  where
    size : length (frame p ++ frames ps) ≡ 8 + length p + length (frames ps)
    size = omega (arith, length-append {0} (frame p) (frames ps), length-frame p)

    behind : drop (off + 8 + length p) content ≡ frames ps ++ rest
    behind =
        ap (λ n. drop n content) (omega (arith, length-frame p))
        ∙ drop_add off (length (frame p)) content
        ∙ ap (drop (length (frame p))) (e ∙ append_assoc (frame p) (frames ps) rest)
        ∙ drop-append (frame p) (frames ps ++ rest)
