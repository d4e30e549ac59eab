-- ===== src/Engine/Wal/Crash.antt =====
-- `Wal::open` and `Wal::append_transaction` of engine/src/engine/wal.cpp together: creating a log, appending to
-- it, a crash within an append, and opening the file again.
use archivum.Base.{
  ℕ, ◌-◌, ◌<◌, ◌≤◌, ◌≡◌, ◌⊎◌, inl, inr, refl, sym, ap, ◌∙◌, subst, arith, leb, not, Bool-cases,
  true, false, Option, some, List, [], ◌∷◌, ◌++◌, Bytes, All, All-append, length, take, take_all,
  take-append, replicate, ==_refl,
}
use mathlib.Core.List.{append-nil, append_assoc}
use archivum.Status.{ErrorCode, Status, ok, err, crashed}
use archivum.Vfs.{
  Disk, Io, Fault, ◌>>◌, write, sync, truncate, sync_directory, exists, open_file, overwritten,
  resized,
}
use archivum.Journal.Scan.{quiet}
use archivum.Journal.Log.{overwritten-end}
use archivum.Engine.PageFormat.{WalHeader, encode_wal_header}
use archivum.Engine.PageFormat.Headers.{IsWalHeader}
use archivum.Engine.Wal.{Wal, frame_offset, with_header, write_header, recover}
use archivum.Engine.Wal.Operations.{
  PageImage, OpenOptions, fresh, create, no_recovery, open_wal, append_transaction, committed,
  report, discard_uncommitted, sizes_ok, encode_frames,
}
use archivum.Engine.Wal.Failure.{append_transaction-committed, written}
use archivum.Engine.Wal.Image.{
  Transaction, IsTransaction, IsImage, images_of, after, after_all, bytes_of, bytes_of_all,
}
use archivum.Engine.Wal.Recovery.{
  log_of, file_of, recovered, recover_torn_log, recover_log, end_offset, if_false,
  after_all-page_size, after_all-read_only,
}

-- Opening the file gives this log, and keeps this much of the file.
abbrev pub Reopens : ℕ → OpenOptions → ℕ → ℕ → Bytes → Wal → ℕ → Bytes → Type 0
Reopens page_size o salt1 salt2 content w dropped kept =
    open_wal page_size o salt1 salt2 (quiet content) ≡ (ok (w, recovered w dropped), quiet kept)

open_present :
    (page_size : ℕ) (o : OpenOptions) (salt1 salt2 : ℕ) (content : Bytes)
    → o.read_only ≡ false
    → open_wal page_size o salt1 salt2 (quiet content)
      ≡ recover (fresh page_size o 0 0) o.db_id salt1 salt2 (quiet content)
unfolding open_wal exists open_file
open_present page_size o salt1 salt2 content writable = rw writable

-- Transactions in a row.
after_all-snoc :
    (w : Wal) (ts : List Transaction) (t : Transaction)
    → after_all w (ts ++ t ∷ []) ≡ after (after_all w ts) t
unfolding after_all
after_all-snoc w [] t = refl
after_all-snoc w (s ∷ ts) t = after_all-snoc (after w s) ts t

bytes_of_all-snoc :
    (w : Wal) (ts : List Transaction) (t : Transaction)
    → bytes_of_all w (ts ++ t ∷ []) ≡ bytes_of_all w ts ++ bytes_of (after_all w ts) t
unfolding after_all bytes_of_all
bytes_of_all-snoc w [] t = append-nil (bytes_of w t)
bytes_of_all-snoc w (s ∷ ts) t =
    ap (◌++◌ (bytes_of w s)) (bytes_of_all-snoc (after w s) ts t)
    ∙ sym (
        append_assoc (bytes_of w s) (bytes_of_all (after w s) ts)
          (bytes_of (after_all (after w s) ts) t))

file_of-snoc :
    (page_size : ℕ) (o : OpenOptions) (h : WalHeader) (ts : List Transaction) (t : Transaction)
    → file_of page_size o h (ts ++ t ∷ [])
      ≡ file_of page_size o h ts ++ bytes_of (log_of page_size o h ts) t
file_of-snoc page_size o h ts t =
    ap (◌++◌ (encode_wal_header h)) (bytes_of_all-snoc (with_header (fresh page_size o 0 0) h) ts t)
    ∙ sym (
        append_assoc (encode_wal_header h) (bytes_of_all _ ts)
          (bytes_of (log_of page_size o h ts) t))

sizes_ok-images :
    (page_size : ℕ) (images : List PageImage)
    → All (IsImage page_size) images
    → sizes_ok page_size images ≡ true
unfolding sizes_ok
sizes_ok-images page_size [] a = refl
sizes_ok-images page_size (image ∷ rest) a =
    rw (a.0.length_ok, ==_refl page_size) (sizes_ok-images page_size rest a.1)

after_all-failed : (w : Wal) (ts : List Transaction) → (after_all w ts).failed ≡ w.failed
unfolding after_all after
after_all-failed w [] = refl
after_all-failed w (t ∷ ts) = after_all-failed (after w t) ts

pub after_all-is_open : (w : Wal) (ts : List Transaction) → (after_all w ts).is_open ≡ w.is_open
unfolding after_all after
after_all-is_open w [] = refl
after_all-is_open w (t ∷ ts) = after_all-is_open (after w t) ts

-- A disk on which the write of a transaction fails behind its first `k` bytes.
abbrev pub failing : Bytes → Bytes → ℕ → ErrorCode → List (Option Fault) → Disk
failing file bytes k code later = record {
  present = true;
  content = file;
  outcomes = some (record { code = code; left = file ++ take k bytes }) ∷ later;
}

-- On such a disk everything behind the write fails as well.
abbrev pub down : Bytes → Bytes → ℕ → Disk
down file bytes k =
    failing file bytes k crashed
      (some (record { code = crashed; left = file ++ take k bytes }) ∷ [])

discard_open :
    (w : Wal) (d : Disk)
    → w.is_open ≡ true
    → discard_uncommitted w d ≡ (do truncate (frame_offset w.page_size w.next_frame); sync) d
unfolding discard_uncommitted
discard_open w d open_ok =
    ap (λ (m : Io (Unit {0})). m d) (if_false (not w.is_open) _ _ (ap not open_ok))

resized-back : (kept tail : Bytes) → resized (length kept) (kept ++ tail) ≡ kept
unfolding resized
resized-back kept tail =
    ap (take (length kept)) (append_assoc kept tail zeros) ∙ take-append kept (tail ++ zeros)
  where
    zeros : Bytes
    zeros = replicate (length kept - length (kept ++ tail)) 0

-- The append of a transaction whose write was refused.
refused :
    (code : ErrorCode) (w : Wal) (images : List PageImage) (db_size running : ℕ) (d : Disk)
    → w.is_open ≡ true
    → committed (err code) w images db_size running d ≡ (
        let (s, d') = (do truncate (frame_offset w.page_size w.next_frame); sync) d in
        (report code s, record w { failed = true }, d'))
unfolding committed
refused code w images db_size running d open_ok =
    ap (λ (r : Status × Disk). (report code r.0, record w { failed = true }, r.1))
      (discard_open w d open_ok)

module _ (page_size : ℕ) (o : OpenOptions) (h : WalHeader) (ts : List Transaction)
    (v : IsWalHeader h) (page_size_ok : h.page_size ≡ page_size) (db_id_ok : h.db_id ≡ o.db_id)
    (writable : o.read_only ≡ false) (valid : All (IsTransaction page_size) ts)
    (salt1 salt2 : ℕ) where
  abbrev w : Wal
  w = log_of page_size o h ts

  abbrev file : Bytes
  file = file_of page_size o h ts

  abbrev empty : Wal
  empty = with_header (fresh page_size o 0 0) h

  offset : frame_offset w.page_size w.next_frame ≡ length file
  offset = end_offset page_size o h v page_size_ok db_id_ok ts [] valid writable

  goes_on :
      (t : Transaction) (d : Disk)
      → IsTransaction page_size t
      → append_transaction w (images_of t) t.db_size d
        ≡ committed
            (written w (images_of t) t.db_size d).0
            w
            (images_of t)
            t.db_size
            (encode_frames w (images_of t) t.db_size w.chain).1
            (written w (images_of t) t.db_size d).1
  goes_on t d vt =
      append_transaction-committed w t.first t.rest t.db_size d
        (after_all-read_only empty ts ∙ writable) (after_all-failed empty ts)
        (ap (λ n. sizes_ok n (images_of t)) (after_all-page_size empty ts)
          ∙ sizes_ok-images page_size (images_of t) vt.images_ok)

  extended : (t : Transaction) → file ++ bytes_of w t ≡ file_of page_size o h (ts ++ t ∷ [])
  extended t = sym (file_of-snoc page_size o h ts t)

  written-quiet :
      (t : Transaction)
      → written w (images_of t) t.db_size (quiet file)
        ≡ (ok tt, quiet (file_of page_size o h (ts ++ t ∷ [])))
  unfolding write sync
  written-quiet t =
      (λ i. (ok tt, quiet (overwritten (offset i) (bytes_of w t) file)))
      ∙ (λ i. (ok tt, quiet ((overwritten-end file (bytes_of w t) ∙ extended t) i)))

  pub reopens : Reopens page_size o salt1 salt2 file w 0 file
  reopens =
      open_present page_size o salt1 salt2 file writable
      ∙ recover_log page_size o h ts v page_size_ok db_id_ok writable valid salt1 salt2

  Reopens-clean :
      (t : Transaction)
      → IsTransaction page_size t
      → Reopens page_size o salt1 salt2
          (file_of page_size o h (ts ++ t ∷ []))
          (after w t)
          0
          (file_of page_size o h (ts ++ t ∷ []))
  Reopens-clean t vt =
      open_present page_size o salt1 salt2 _ writable
      ∙ recover_log page_size o h (ts ++ t ∷ []) v page_size_ok db_id_ok writable
          (All-append (IsTransaction page_size) ts (t ∷ []) valid (vt, tt)) salt1 salt2
      ∙ (λ i. (
        ok (after_all-snoc empty ts t i, recovered (after_all-snoc empty ts t i) 0),
        quiet (file_of page_size o h (ts ++ t ∷ [])),
      ))

  -- Appending a transaction to a log with nothing refused succeeds, and opening the file gives the log
  -- that the append left, with all of its maps.
  pub append_transaction-Reopens :
      (t : Transaction)
      → IsTransaction page_size t
      → (append_transaction w (images_of t) t.db_size (quiet file)
          ≡ (ok tt, after w t, quiet (file_of page_size o h (ts ++ t ∷ []))))
        × Reopens page_size o salt1 salt2
            (file_of page_size o h (ts ++ t ∷ []))
            (after w t)
            0
            (file_of page_size o h (ts ++ t ∷ []))
  unfolding committed after
  append_transaction-Reopens t vt = (
    goes_on t (quiet file) vt ∙ (λ i.
        committed (written-quiet t i).0 w (images_of t) t.db_size
          (encode_frames w (images_of t) t.db_size w.chain).1 (written-quiet t i).1),
    Reopens-clean t vt,
  )

  Reopens-torn :
      (t : Transaction) (k : ℕ)
      → IsTransaction page_size t
      → k < length (bytes_of w t)
      → Reopens page_size o salt1 salt2 (file ++ take k (bytes_of w t)) w k file
  Reopens-torn t k vt short =
      open_present page_size o salt1 salt2 _ writable
      ∙ recover_torn_log page_size o h ts v page_size_ok db_id_ok writable valid salt1 salt2 t k vt
          short

  abbrev pub Part : Transaction → ℕ → Type 0
  Part t k =
      ((k < length (bytes_of w t))
        × Reopens page_size o salt1 salt2 (file ++ take k (bytes_of w t)) w k file)
      ⊎ ((length (bytes_of w t) ≤ k)
          × Reopens page_size o salt1 salt2 (file ++ take k (bytes_of w t)) (after w t) 0
              (file_of page_size o h (ts ++ t ∷ [])))

  reopen-Part : (t : Transaction) (k : ℕ) → IsTransaction page_size t → Part t k
  reopen-Part t k vt = elim (Bool-cases (leb (length (bytes_of w t)) k)) [
    | inl whole ↦ inr (
      leb→le whole,
      subst
          (λ bs.
            Reopens page_size o salt1 salt2 bs (after w t) 0 (file_of page_size o h (ts ++ t ∷ [])))
          (sym (ap (◌++◌ file) (take_all k (bytes_of w t) (leb→le whole)) ∙ extended t))
          (Reopens-clean t vt),
    )
    | inr part ↦ inl (lt_of_leb part, Reopens-torn t k vt (lt_of_leb part))
  ]
    where
      leb→le : leb (length (bytes_of w t)) k ≡ true → length (bytes_of w t) ≤ k
      leb→le e = ground arith

      lt_of_leb : leb (length (bytes_of w t)) k ≡ false → k < length (bytes_of w t)
      lt_of_leb e = ground arith

  -- When the machine goes down within the write of a transaction, behind its first `k` bytes, the append
  -- reports the crash, and opening the file again gives the log from before the append, or the one with the
  -- transaction in the case that all of its bytes were written.
  pub append_transaction_crash :
      (t : Transaction) (k : ℕ)
      → IsTransaction page_size t
      → ((append_transaction w (images_of t) t.db_size (down file (bytes_of w t) k)).0
          ≡ err crashed)
        × ((append_transaction w (images_of t) t.db_size (down file (bytes_of w t) k)).2.content
            ≡ file ++ take k (bytes_of w t))
        × Part t k
  append_transaction_crash t k vt =
      (ap (λ r. r.0) step, ap (λ (r : Status × Wal × Disk). r.2.content) step, reopen-Part t k vt)
    where
      step :
          append_transaction w (images_of t) t.db_size (down file (bytes_of w t) k)
          ≡ (err crashed, record w { failed = true }, quiet (file ++ take k (bytes_of w t)))
      step =
          unfold write truncate sync report in
          goes_on t _ vt
          ∙ refused crashed w (images_of t) t.db_size _ _ (after_all-is_open empty ts)

  -- When the operating system refuses the write of a transaction behind its first `k` bytes and nothing
  -- else, the append reports the refusal, marks the log as failed and cuts the file back to the
  -- transactions before it, and opening the file gives their log.
  pub append_transaction_discards :
      (t : Transaction) (k : ℕ) (code : ErrorCode)
      → IsTransaction page_size t
      → (append_transaction w (images_of t) t.db_size (failing file (bytes_of w t) k code [])
          ≡ (err code, record w { failed = true }, quiet file))
        × Reopens page_size o salt1 salt2 file w 0 file
  append_transaction_discards t k code vt = (
    (unfold write truncate sync report in
        goes_on t _ vt
        ∙ refused code w (images_of t) t.db_size _ _ (after_all-is_open empty ts)
        ∙ (λ i. (err code, record w { failed = true }, quiet (back i)))),
    reopens,
  )
    where
      tail : Bytes
      tail = take k (bytes_of w t)

      back : resized (frame_offset w.page_size w.next_frame) (file ++ tail) ≡ file
      back = ap (λ n. resized n (file ++ tail)) offset ∙ resized-back file tail

-- Opening where there is no file creates the log of no transactions under the new salts, and opening that
-- file gives the same log.
pub open_wal_creates :
    (page_size : ℕ) (o : OpenOptions) (salt1 salt2 salt1' salt2' : ℕ)
    → o.read_only ≡ false
    → IsWalHeader (fresh page_size o salt1 salt2).header
    → (open_wal page_size o salt1 salt2 (record { present = false; content = []; outcomes = [] })
        ≡ (
          ok (log_of page_size o (fresh page_size o salt1 salt2).header [], no_recovery),
          quiet (file_of page_size o (fresh page_size o salt1 salt2).header []),
        ))
      × Reopens page_size o salt1' salt2'
          (file_of page_size o (fresh page_size o salt1 salt2).header [])
          (log_of page_size o (fresh page_size o salt1 salt2).header [])
          0
          (file_of page_size o (fresh page_size o salt1 salt2).header [])
open_wal_creates page_size o salt1 salt2 salt1' salt2' writable v = (
  (unfold open_wal exists open_file create write_header write sync sync_directory after_all
        bytes_of_all in
      rw writable (λ i. (
        ok (
          record (log_of page_size o (fresh page_size o salt1 salt2).header []) {
            read_only = false;
          },
          no_recovery,
        ),
        quiet ((overwritten-end [] header ∙ sym (append-nil header)) i),
      ))),
  open_present page_size o salt1' salt2' _ writable
      ∙ recover_log page_size o (fresh page_size o salt1 salt2).header [] v refl refl writable tt
          salt1' salt2',
)
  where
    header : Bytes
    header = encode_wal_header (fresh page_size o salt1 salt2).header
