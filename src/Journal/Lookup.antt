-- ===== src/Journal/Lookup.antt =====
-- `Journal::read` of engine/src/journal.cpp returns what was appended.
use archivum.Base.{
  ℕ, zero, suc, ◌+◌, ◌≡◌, refl, sym, ap, ◌∙◌, arith, Option, none, some, List, [], ◌∷◌, ◌++◌, Bytes,
  length, take, drop, drop_exact, drop_add, drop-append, take-append, ==_refl, get_elem?,
}
use mathlib.Core.List.{append_assoc, append-nil}
use archivum.Status.{Result, ok, err, not_found}
use archivum.Vfs.{read}
use archivum.Journal.{Journal, make_header, frame, read_record, read_ref}
use archivum.Journal.Image.{
  frames, image, refs, head, frame-eq, length-head, length-frame, length-make_header,
}
use archivum.Journal.Scan.{quiet}
use archivum.Journal.Log.{Holds}

-- The payload with this index, or the journal's answer to an index out of range.
abbrev pub answer : Option Bytes → Result Bytes
answer none = err not_found
answer (some p) = ok p

read_ref-at :
    (off : ℕ) (ps : List Bytes) (i : ℕ) (content rest : Bytes)
    → drop off content ≡ frames ps ++ rest
    → read_ref (get_elem? (refs off ps) i) (quiet content)
      ≡ (answer (get_elem? ps i), quiet content)
read_ref-at off [] i content rest e = unfold read_ref in refl
read_ref-at off (p ∷ ps) zero content rest e = unfold read_ref read in rw (payload, ==_refl)
  where
    payload : take (length p) (drop (off + 8) content) ≡ p
    payload =
        ap (take (length p)) (
          drop_add off 8 content
          ∙ ap (drop 8) (
              e
              ∙ append_assoc (frame p) (frames ps) rest
              ∙ ap (λ bs. bs ++ (frames ps ++ rest)) (frame-eq p)
              ∙ append_assoc (head p) p (frames ps ++ rest))
          ∙ drop_exact (head p) (p ++ (frames ps ++ rest)) (length-head p))
        ∙ take-append p (frames ps ++ rest)
read_ref-at off (p ∷ ps) (suc i) content rest e =
    read_ref-at (off + 8 + length p) ps i content rest behind
  where
    behind : drop (off + 8 + length p) content ≡ frames ps ++ rest
    behind =
        ap (λ n. drop n content) (omega (arith, length-frame p))
        ∙ drop_add off (length (frame p)) content
        ∙ ap (drop (length (frame p))) (e ∙ append_assoc (frame p) (frames ps) rest)
        ∙ drop-append (frame p) (frames ps ++ rest)

-- Reading by index gives the payload appended at that place, and `not_found` past the last one.
pub read_record-Holds :
    (j : Journal) (ps : List Bytes) (i : ℕ)
    → Holds j (image ps) ps
    → read_record j i (quiet (image ps)) ≡ (answer (get_elem? ps i), quiet (image ps))
unfolding read_record
read_record-Holds j ps i h =
    rw (h.is_open, h.records)
      (read_ref-at 16 ps i (image ps) []
        (drop_exact make_header (frames ps) length-make_header ∙ sym (append-nil (frames ps))))
