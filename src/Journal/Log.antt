-- ===== src/Journal/Log.antt =====
-- The journal as what it promises: a list of payloads. `append` adds one at the end or reports an
-- error, `read_record` looks one up, and reopening after a crash gives back a prefix.
use archivum.Base.{
  ◌+◌, ◌-◌, ◌≡◌, refl, sym, ap, ◌∙◌, arith, Bool, true, false, ◌==◌, ltb, ◌||◌, Option, none, some,
  List, [], ◌∷◌, ◌++◌, Bytes, length, drop, length-append, replicate, take-append, drop_all,
}
use mathlib.Core.List.{append-nil, append_assoc}
use archivum.Status.{ErrorCode, Status, ok, err, io_error}
use archivum.Vfs.{Disk, Fault, write, sync, resized, overwritten}
use archivum.Journal.{Options, Journal, make_header, frame, append, appended, write_frame}
use archivum.Journal.Image.{
  Fits, frames, image, refs, frames-append, refs-append, length-make_header,
}
use archivum.Journal.Scan.{quiet}

-- An open, unfailed journal over a file that holds exactly these payloads.
pub record Holds (j : Journal) (content : Bytes) (ps : List Bytes) : Type 0 where
  pub is_open : j.is_open ≡ true
  pub unfailed : j.failed ≡ false
  pub records : j.records ≡ refs 16 ps
  pub end : j.end ≡ length (image ps)
  pub file : content ≡ image ps

-- A write at the end of the file extends it.
pub overwritten-end :
    (content bytes : Bytes) → overwritten (length content) bytes content ≡ content ++ bytes
unfolding overwritten resized
overwritten-end content bytes =
    ap (λ bs. bs ++ (bytes ++ drop (length content + length bytes) content))
      (take-append content (replicate (length content - length content) 0))
    ∙ ap (λ bs. content ++ (bytes ++ bs)) (drop_all _ content (omega arith))
    ∙ ap (◌++◌ content) (append-nil bytes)

pub image-snoc : (ps : List Bytes) (p : Bytes) → image ps ++ frame p ≡ image (ps ++ p ∷ [])
image-snoc ps p =
    append_assoc make_header (frames ps) (frame p)
    ∙ ap (◌++◌ make_header)
        (ap (◌++◌ (frames ps)) (sym (append-nil (frame p))) ∙ sym (frames-append ps (p ∷ [])))

-- Whatever the operating system refuses: a write and sync that report success have extended the file.
write_frame_ok :
    (o : Options) (j : Journal) (p : Bytes) (b : Bool) (content : Bytes)
    (outcomes : List (Option Fault))
    → j.end ≡ length content
    → (write_frame o j p (record { present = b; content = content; outcomes = outcomes })).0 ≡ ok tt
    → (write_frame o j p (record { present = b; content = content; outcomes = outcomes })).1.content
      ≡ content ++ frame p
unfolding write_frame write sync
write_frame_ok o j p b content [] e h = ground (arith, overwritten-end content (frame p), e)
write_frame_ok o j p b content (none ∷ []) e h =
    ground (arith, overwritten-end content (frame p), e)
write_frame_ok o j p b content (none ∷ none ∷ rest) e h =
    ground (arith, overwritten-end content (frame p), e)
write_frame_ok o j p b content (none ∷ some f ∷ rest) e h =
    ground (arith, overwritten-end content (frame p), e)
write_frame_ok o j p b content (some f ∷ rest) e h = ground arith

-- `append` goes on to write exactly when the journal is open and unfailed and the payload fits.
pub append-writes :
    (o : Options) (j : Journal) (p : Bytes) (d : Disk)
    → j.is_open ≡ true
    → j.failed ≡ false
    → Fits o p
    → append o j p d ≡ appended (write_frame o j p d).0 j p (write_frame o j p d).1
unfolding append
append-writes o j p d opn unf f = rw (opn, unf, accepted)
  where
    accepted : (length p == 0 || ltb o.max_record_bytes (length p)) ≡ false
    accepted = ground (arith, f.nonempty, f.small)

appended_status : (r : Status) (j : Journal) (p : Bytes) (d : Disk) → (appended r j p d).0 ≡ r
unfolding appended
appended_status (ok u) j p d = refl
appended_status (err e) j p d = refl

appended_error :
    (r : Status) (j : Journal) (p : Bytes) (d : Disk) (e : ErrorCode)
    → (appended r j p d).0 ≡ err e
    → (appended r j p d).1.failed ≡ true
unfolding appended
appended_error (ok u) j p d e h = cc
appended_error (err c) j p d e h = refl

appended-Holds :
    (j : Journal) (ps : List Bytes) (p content : Bytes) (r : Status) (d : Disk)
    → Holds j content ps
    → d.content ≡ content ++ frame p
    → (appended r j p d).0 ≡ ok tt
    → Holds (appended r j p d).1 (appended r j p d).2.content (ps ++ p ∷ [])
unfolding appended
appended-Holds j ps p content (err e) d h wrote success = cc
appended-Holds j ps p content (ok u) d h wrote success = record {
  is_open = h.is_open;
  unfailed = h.unfailed;
  records =
      ap (λ rs. rs ++ record { offset = j.end; length = length p } ∷ []) h.records
      ∙ ap (λ n. refs 16 ps ++ record { offset = n; length = length p } ∷ []) place
      ∙ sym (refs-append 16 ps (p ∷ []));
  end = omega (arith, h.end, length-append {0} (image ps) (frame p), ap length (image-snoc ps p));
  file = wrote ∙ ap (λ bs. bs ++ frame p) h.file ∙ image-snoc ps p;
}
  where
    place : j.end ≡ 16 + length (frames ps)
    place = omega (arith, h.end, length-append {0} make_header (frames ps), length-make_header)

-- What the journal promises of an `append` that reports success, whatever the disk did before: the
-- file then holds the old records and the new one, and nothing else.
pub append-Holds :
    (o : Options) (j : Journal) (ps : List Bytes) (p : Bytes) (d : Disk)
    → Holds j d.content ps
    → Fits o p
    → (append o j p d).0 ≡ ok tt
    → Holds (append o j p d).1 (append o j p d).2.content (ps ++ p ∷ [])
append-Holds o j ps p d h f success = rw (append-writes o j p d h.is_open h.unfailed f) (
    appended-Holds j ps p d.content _ _ h
      (write_frame_ok o j p d.present d.content d.outcomes (h.end ∙ ap length (sym h.file)) wrote)
      (rw (append-writes o j p d h.is_open h.unfailed f) at success))
  where
    wrote : (write_frame o j p d).0 ≡ ok tt
    wrote =
        sym (appended_status (write_frame o j p d).0 j p (write_frame o j p d).1)
        ∙ sym (ap (λ t. t.0) (append-writes o j p d h.is_open h.unfailed f))
        ∙ success

-- On a disk that refuses nothing, appending to a journal that is open, has not failed and holds what its file
-- says reports success, for a payload that is not empty and within the limit of the options.
pub append-quiet :
    (o : Options) (j : Journal) (ps : List Bytes) (p : Bytes)
    → Holds j (image ps) ps
    → Fits o p
    → (append o j p (quiet (image ps))).0 ≡ ok tt
append-quiet o j ps p h f =
    rw (append-writes o j p (quiet (image ps)) h.is_open h.unfailed f)
      (appended_status (write_frame o j p (quiet (image ps))).0 j p _ ∙ written)
  where
    written : (write_frame o j p (quiet (image ps))).0 ≡ ok tt
    written = unfold write_frame write sync in ground arith

-- After an I/O error every further `append` is refused and leaves the disk alone, until the file is
-- opened again.
pub append_error_sticks :
    (o : Options) (j : Journal) (p q : Bytes) (d d' : Disk) (e : ErrorCode)
    → j.is_open ≡ true
    → j.failed ≡ false
    → Fits o p
    → (append o j p d).0 ≡ err e
    → append o (append o j p d).1 q d' ≡ (err io_error, (append o j p d).1, d')
append_error_sticks o j p q d d' e opn unf f h = refused _ failed
  where
    failed : (append o j p d).1.failed ≡ true
    failed =
        rw (append-writes o j p d opn unf f) (
          appended_error (write_frame o j p d).0 j p _ e
            (rw (append-writes o j p d opn unf f) at h))

    refused : (k : Journal) → k.failed ≡ true → append o k q d' ≡ (err io_error, k, d')
    refused k t = unfold append in ground arith
