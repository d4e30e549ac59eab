-- ===== src/Journal/Examples.antt =====
-- Runs of the journal, and its theorems at concrete files.
use archivum.Base.{◌≡◌, refl, ◌<◌, ◌≤◌, ◌⊎◌, arith, false, [], ◌∷◌, ◌++◌, Bytes, length, take}
use archivum.Status.{ok, err, io_error}
use archivum.LittleEndian.{put_u32, put_from}
use archivum.Journal.{Options, Journal, frame, opened, recover, append, read_record}
use archivum.Journal.Image.{Fits, image, refs}
use archivum.Journal.Scan.{quiet}
use archivum.Journal.Recovery.{recover_torn}
use archivum.Journal.Log.{Holds, append-Holds, append-quiet, append_error_sticks}
use archivum.Journal.Crash.{Reopens, failing, append_crash, opened-Holds}
use archivum.Journal.Lookup.{read_record-Holds}

abbrev options : Options
options = record { max_record_bytes = 16_777_216; unsafe_skip_sync = false }

abbrev first : Bytes
first = 10 ∷ 20 ∷ 30 ∷ []

abbrev second : Bytes
second = 7 ∷ []

first-Fits : Fits options first
first-Fits = omega arith

second-Fits : Fits options second
second-Fits = omega arith

abbrev one_record : Journal
one_record = opened (refs 16 (first ∷ [])) (length (image (first ∷ []))) 0 false

one_record-Holds : Holds one_record (image (first ∷ [])) (first ∷ [])
one_record-Holds = opened-Holds (first ∷ []) 0 false

-- Eight bytes of the second record reached the file.
recover_torn_example : recover options (quiet (image (first ∷ []) ++ take 8 (frame second))) ≡ (
  ok (opened (refs 16 (first ∷ [])) (length (image (first ∷ []))) 8 false),
  quiet (image (first ∷ [])),
)
recover_torn_example =
    recover_torn options (first ∷ []) second 8 (first-Fits, tt) second-Fits
      (unfold frame put_u32 put_from in omega arith)

append-quiet_example : (append options one_record second (quiet (image (first ∷ [])))).0 ≡ ok tt
append-quiet_example =
    append-quiet options one_record (first ∷ []) second one_record-Holds second-Fits

append-Holds_example :
    Holds
      (append options one_record second (quiet (image (first ∷ [])))).1
      (append options one_record second (quiet (image (first ∷ [])))).2.content
      (first ∷ second ∷ [])
append-Holds_example =
    append-Holds options one_record (first ∷ []) second (quiet (image (first ∷ [])))
      one_record-Holds second-Fits
      (append-quiet options one_record (first ∷ []) second one_record-Holds second-Fits)

append_error_sticks_example :
    append options
      (append options one_record second (failing (first ∷ []) second 3 io_error [])).1
      first
      (quiet [])
    ≡ (
      err io_error,
      (append options one_record second (failing (first ∷ []) second 3 io_error [])).1,
      quiet [],
    )
append_error_sticks_example =
    append_error_sticks options one_record second first (failing (first ∷ []) second 3 io_error [])
      (quiet []) io_error refl refl second-Fits
      (append_crash options one_record (first ∷ []) second 3 one_record-Holds (first-Fits, tt)
        second-Fits io_error []).0

append_crash_example :
    ((append options one_record second (failing (first ∷ []) second 3 io_error [])).0
      ≡ err io_error)
    × ((append options one_record second (failing (first ∷ []) second 3 io_error [])).2.content
        ≡ image (first ∷ []) ++ take 3 (frame second))
    × (((3 < length (frame second))
          × Reopens options (image (first ∷ []) ++ take 3 (frame second)) (first ∷ []))
        ⊎ ((length (frame second) ≤ 3)
            × Reopens options (image (first ∷ []) ++ take 3 (frame second)) (first ∷ second ∷ [])))
append_crash_example =
    append_crash options one_record (first ∷ []) second 3 one_record-Holds (first-Fits, tt)
      second-Fits io_error []

read_record-Holds_example :
    read_record one_record 0 (quiet (image (first ∷ []))) ≡ (ok first, quiet (image (first ∷ [])))
read_record-Holds_example = read_record-Holds one_record (first ∷ []) 0 one_record-Holds
