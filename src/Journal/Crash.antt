-- ===== src/Journal/Crash.antt =====
-- A crash while a record is written, and opening the file again.
use archivum.Base.{
  ℕ, ◌≤◌, ◌<◌, ◌≡◌, refl, sym, ap, ◌∙◌, ◌⊎◌, inl, inr, arith, Bool, true, false, Option, some, List,
  [], ◌∷◌, ◌++◌, Bytes, length, take, take_all, All-append, leb, Bool-cases,
}
use mathlib.Core.Path.{subst}
use archivum.LittleEndian.{put_u32, put_from}
use archivum.Status.{ErrorCode, ok, err}
use archivum.Vfs.{Disk, Fault, write, sync, sync_directory, exists, open_file, overwritten, resized}
use archivum.Journal.{
  Options, Journal, frame, opened, recover, create_new, open_journal, append, write_frame, appended,
  make_header,
}
use archivum.Journal.Image.{Fits, AllFit, image, refs}
use archivum.Journal.Scan.{quiet}
use archivum.Journal.Recovery.{recover_torn, recover_clean}
use archivum.Journal.Log.{Holds, image-snoc, append-writes}

-- Opening the file gives a journal of exactly these records.
abbrev pub Reopens : Options → Bytes → List Bytes → Type 0
Reopens o content ps =
    (j : Journal) × (open_journal o (quiet content) ≡ (ok j, quiet (image ps)))
    × Holds j (image ps) ps

open_present :
    (o : Options) (content : Bytes) → open_journal o (quiet content) ≡ recover o (quiet content)
unfolding open_journal exists open_file
open_present o content = refl

pub opened-Holds :
    (ps : List Bytes) (dropped : ℕ) (rewritten : Bool)
    → Holds (opened (refs 16 ps) (length (image ps)) dropped rewritten) (image ps) ps
opened-Holds ps dropped rewritten = record {
  is_open = refl;
  unfailed = refl;
  records = refl;
  end = refl;
  file = refl;
}

pub reopen_torn :
    (o : Options) (ps : List Bytes) (p : Bytes) (k : ℕ)
    → AllFit o ps
    → Fits o p
    → k < length (frame p)
    → Reopens o (image ps ++ take k (frame p)) ps
reopen_torn o ps p k f fits short =
    (_, open_present o _ ∙ recover_torn o ps p k f fits short, opened-Holds ps k false)

pub reopen_clean : (o : Options) (ps : List Bytes) → AllFit o ps → Reopens o (image ps) ps
reopen_clean o ps f = (_, open_present o _ ∙ recover_clean o ps f, opened-Holds ps 0 false)

-- A disk on which the write of a record fails after its first `k` bytes.
abbrev pub failing : List Bytes → Bytes → ℕ → ErrorCode → List (Option Fault) → Disk
failing ps p k code later = record {
  present = true;
  content = image ps;
  outcomes = some (record { code = code; left = image ps ++ take k (frame p) }) ∷ later;
}

module _ (o : Options) (j : Journal) (ps : List Bytes) (p : Bytes) (k : ℕ)
    (h : Holds j (image ps) ps) (f : AllFit o ps) (fits : Fits o p) where
  reopen_part :
      ((k < length (frame p)) × Reopens o (image ps ++ take k (frame p)) ps)
      ⊎ ((length (frame p) ≤ k) × Reopens o (image ps ++ take k (frame p)) (ps ++ p ∷ []))
  reopen_part = elim (Bool-cases (leb (length (frame p)) k)) [
    | inl whole ↦ inr (
      leb→le whole,
      subst (λ bs. Reopens o bs (ps ++ p ∷ []))
          (sym (ap (◌++◌ (image ps)) (take_all k (frame p) (leb→le whole)) ∙ image-snoc ps p))
          (reopen_clean o (ps ++ p ∷ []) (All-append (Fits o) ps (p ∷ []) f (fits, tt))),
    )
    | inr part ↦ inl (lt_of_leb part, reopen_torn o ps p k f fits (lt_of_leb part))
  ]
    where
      leb→le : leb (length (frame p)) k ≡ true → length (frame p) ≤ k
      leb→le e = ground arith

      lt_of_leb : leb (length (frame p)) k ≡ false → k < length (frame p)
      lt_of_leb e = ground arith

  -- When the operating system refuses the write of a record after its first `k` bytes, `append`
  -- reports the refusal, and opening the file again gives a journal of the old records, or of these
  -- and the new one in the case that all of it was written.
  pub append_crash :
      (code : ErrorCode) (later : List (Option Fault))
      → ((append o j p (failing ps p k code later)).0 ≡ err code)
        × ((append o j p (failing ps p k code later)).2.content ≡ image ps ++ take k (frame p))
        × (((k < length (frame p)) × Reopens o (image ps ++ take k (frame p)) ps)
            ⊎ ((length (frame p) ≤ k) × Reopens o (image ps ++ take k (frame p)) (ps ++ p ∷ [])))
  append_crash code later = (
    rw written (unfold write_frame write appended in refl),
    rw written (unfold write_frame write appended in refl),
    reopen_part,
  )
    where
      d : Disk
      d = failing ps p k code later

      written : append o j p d ≡ appended (write_frame o j p d).0 j p (write_frame o j p d).1
      written = append-writes o j p d h.is_open h.unfailed fits

-- Opening where there is no file creates a journal of no records.
pub open_journal-absent :
    (o : Options)
    → open_journal o (record { present = false; content = []; outcomes = [] })
      ≡ (ok (opened [] 16 0 false), quiet (image []))
unfolding open_journal create_new exists open_file write sync sync_directory overwritten resized
    make_header put_u32 put_from
open_journal-absent o = refl
