-- ===== src/Engine/Wal/Recovery.antt =====
-- `Wal::recover` of engine/src/engine/wal.cpp on the file of a log with a tail behind it.
use archivum.Base.{
  ℕ, suc, zero, ◌+◌, ◌-◌, ◌<◌, ◌≡◌, ◌==◌, refl, sym, ap, ◌∙◌, subst, arith, ltb, if◌then◌else◌,
  Bool, true, false, false≢true, some, List, [], ◌∷◌, ◌++◌, Bytes, All, length, length-append,
  length-take, take, drop, take_exact, drop_exact, take-append, replicate, ==_refl,
}
use native.Mathlib.Nat.{zero-mul}
use mathlib.Core.List.{append-nil, append_assoc}
use archivum.Status.{Result, ok}
use archivum.Vfs.{
  Disk, Io, continue, pure, ◌>>◌, read, truncate, size, sync, sync_directory, resized,
}
use archivum.Journal.Scan.{quiet}
use archivum.Journal.Recovery.{bytes_eq_refl}
use archivum.Engine.PageFormat.{WalHeader, encode_wal_header}
use archivum.Engine.PageFormat.Headers.{
  IsWalHeader, decode-encode_wal_header, length-encode_wal_header,
}
use archivum.Engine.Wal.{
  Wal, WalRecoveryInfo, Progress, frame_offset, frame_size, replay, usable_header, with_header,
  finish, from_header, recover,
}
use archivum.Engine.Wal.Operations.{OpenOptions, fresh, encode_frames, encode_frame}
use archivum.Engine.Wal.Image.{
  Transaction, IsTransaction, images_of, IsImage, after, after_all, bytes_of, bytes_of_all,
  log_file,
}
use archivum.Engine.Wal.Logs.{
  IsLog, at, at-IsReady, after_all-IsLog, offset-after_all, rounds, rounds-fit, replay-log,
}
use archivum.Engine.Wal.Torn.{Commits, replay-torn, replay-short}

pub if_false {ℓ} : {A : Type ℓ} (b : Bool) (x y : A) → b ≡ false → (if b then x else y) ≡ y
if_false true x y e = absurd (false≢true (sym e))
if_false false x y e = refl

-- What `finish` does to a file with `stored` bytes of which `kept` are good.
abbrev tidy {ℓ} : {A : Type ℓ} → ℕ → ℕ → A → Io A
tidy kept stored a = do
  if ltb kept stored then (do truncate kept; sync) else pure tt
  if stored - kept == 0 then sync else pure tt
  sync_directory
  pure a

tidy_lem {ℓ} :
    {A : Type ℓ} (kept tail : Bytes) (a : A)
    → tidy (length kept) (length (kept ++ tail)) a (quiet (kept ++ tail)) ≡ (ok a, quiet kept)
unfolding truncate sync sync_directory resized
tidy_lem kept [] a = rw (append-nil kept, ltb-refl (length kept), zero-diff (length kept))
  where
    ltb-refl : (n : ℕ) → ltb n n ≡ false
    ltb-refl n = ground arith

    zero-diff : (n : ℕ) → (n - n == 0) ≡ true
    zero-diff n = ground arith
tidy_lem kept (b ∷ tail) a =
    rw (longer, some_left)
      (ap (λ bs. (ok a, quiet bs))
        (ap (take (length kept)) (append_assoc kept (b ∷ tail) (replicate zeros 0))
          ∙ take-append kept (b ∷ tail ++ replicate zeros 0)))
  where
    zeros : ℕ
    zeros = length kept - length (kept ++ (b ∷ tail))

    longer : ltb (length kept) (length (kept ++ (b ∷ tail))) ≡ true
    longer = ground (arith, length-append kept (b ∷ tail))

    some_left : (length (kept ++ (b ∷ tail)) - length kept == 0) ≡ false
    some_left = ground (arith, length-append kept (b ∷ tail))

abbrev pub recovered : Wal → ℕ → WalRecoveryInfo
recovered w dropped = record {
  committed_frames = w.last_commit;
  dropped_bytes = dropped;
  header_rewritten = false;
}

finish_lem :
    (s : Progress) (w : Wal) (file tail : Bytes)
    → s.wal ≡ record w { next_frame = 1 }
    → s.valid_end ≡ length file
    → w.next_frame ≡ w.last_commit + 1
    → w.read_only ≡ false
    → finish s (length (file ++ tail)) (quiet (file ++ tail))
      ≡ (ok (w, recovered w (length tail)), quiet file)
unfolding finish
finish_lem s w file tail same_wal same_end next writable =
    (λ i.
      finish (record s { wal = same_wal i; valid_end = same_end i }) (length (file ++ tail))
        (quiet (file ++ tail)))
    ∙ ap (λ (m : Io (Wal × WalRecoveryInfo)). m (quiet (file ++ tail)))
        (if_false w.read_only _ _ writable)
    ∙ tidy_lem file tail (
      record w { next_frame = w.last_commit + 1 },
      recovered w (length (file ++ tail) - length file),
    )
    ∙ (λ i. (ok (record w { next_frame = sym next i }, recovered w (left i)), quiet file))
  where
    left : length (file ++ tail) - length file ≡ length tail
    left = omega (arith, length-append file tail)

after_all-header : (w : Wal) (ts : List Transaction) → (after_all w ts).header ≡ w.header
unfolding after_all after
after_all-header w [] = refl
after_all-header w (t ∷ ts) = after_all-header (after w t) ts

pub after_all-read_only :
    (w : Wal) (ts : List Transaction) → (after_all w ts).read_only ≡ w.read_only
unfolding after_all after
after_all-read_only w [] = refl
after_all-read_only w (t ∷ ts) = after_all-read_only (after w t) ts

pub after_all-page_size :
    (w : Wal) (ts : List Transaction) → (after_all w ts).page_size ≡ w.page_size
unfolding after_all after
after_all-page_size w [] = refl
after_all-page_size w (t ∷ ts) = after_all-page_size (after w t) ts

first_offset : (page_size : ℕ) → frame_offset page_size 1 ≡ 48
unfolding frame_offset
first_offset page_size = omega (arith, zero-mul (frame_size page_size))

-- The log of a header, and where the loop begins on its file.
module _ (page_size : ℕ) (o : OpenOptions) (h : WalHeader) (v : IsWalHeader h)
    (page_size_ok : h.page_size ≡ page_size) (db_id_ok : h.db_id ≡ o.db_id) where
  abbrev pub start : Wal
  start = with_header (fresh page_size o 0 0) h

  start-IsLog : IsLog start
  start-IsLog = record { next_is = refl; salt1_fits = v.salt1_fits; salt2_fits = v.salt2_fits }

  usable_header_lem : usable_header page_size o.db_id (encode_wal_header h) ≡ some h
  unfolding usable_header
  usable_header_lem = rw (
    length-encode_wal_header h v,
    (decode-encode_wal_header h v).0,
    page_size_ok,
    ==_refl page_size,
    db_id_ok,
    bytes_eq_refl o.db_id,
  )

  -- The loop ends where the tail begins, with the log that has committed the transactions.
  module _ (ts : List Transaction) (tail : Bytes) (valid : All (IsTransaction page_size) ts)
      (writable : o.read_only ≡ false) where
    abbrev pub last : Wal
    last = after_all start ts

    abbrev pub file : Bytes
    file = log_file start ts

    abbrev total : ℕ
    total = length (file ++ tail)

    abbrev pub Stops : Type 0
    Stops =
        (fuel : ℕ)
        → length tail < fuel
        → drop (frame_offset last.page_size last.next_frame) (file ++ tail) ≡ tail
        → total ≡ frame_offset last.page_size last.next_frame + length tail
        → Commits (at last) (replay fuel total (at last) (quiet (file ++ tail))) (file ++ tail)

    header_length : length (encode_wal_header h) ≡ 48
    header_length = length-encode_wal_header h v

    file_length : length file ≡ 48 + length (bytes_of_all start ts)
    file_length =
        omega (arith, length-append (encode_wal_header h) (bytes_of_all start ts), header_length)

    last_offset : frame_offset page_size last.next_frame ≡ length file
    last_offset =
        offset-after_all start ts start-IsLog valid
        ∙ omega (arith, file_length, first_offset page_size)

    total-eq : total ≡ length file + length tail
    total-eq = length-append file tail

    split : file ++ tail ≡ encode_wal_header h ++ (bytes_of_all start ts ++ tail)
    split = append_assoc (encode_wal_header h) (bytes_of_all start ts) tail

    abbrev spare : ℕ
    spare = total - rounds ts

    last_page_size : last.page_size ≡ page_size
    last_page_size = after_all-page_size start ts

    pub end_offset : frame_offset last.page_size last.next_frame ≡ length file
    end_offset = ap (λ n. frame_offset n last.next_frame) last_page_size ∙ last_offset

    loop :
        replay total total (at start) (quiet (file ++ tail))
        ≡ replay spare total (at last) (quiet (file ++ tail))
    loop =
        ap (λ n. replay n total (at start) (quiet (file ++ tail))) fuel
        ∙ replay-log start ts spare total (file ++ tail) tail start-IsLog valid behind_header
            (omega (arith, total-eq, file_length, first_offset page_size))
      where
        fuel : total ≡ rounds ts + spare
        fuel = omega (arith, total-eq, file_length, rounds-fit start ts valid)

        behind_header :
            drop (frame_offset page_size 1) (file ++ tail) ≡ bytes_of_all start ts ++ tail
        behind_header =
            ap (λ n. drop n (file ++ tail)) (first_offset page_size)
            ∙ ap (drop 48) split
            ∙ drop_exact (encode_wal_header h) (bytes_of_all start ts ++ tail) header_length

    ends :
        Stops
        → Commits (at last) (replay total total (at start) (quiet (file ++ tail))) (file ++ tail)
    ends stops =
        let (s, run, same_wal, same_end) =
          stops spare (omega (arith, total-eq, file_length, rounds-fit start ts valid))
            (ap (λ n. drop n (file ++ tail)) end_offset ∙ drop_exact file tail refl)
            (omega (arith, total-eq, end_offset)) in
        (s, loop ∙ run, same_wal, same_end)

    pub recover_lem :
        (salt1 salt2 : ℕ)
        → Stops
        → recover (fresh page_size o 0 0) o.db_id salt1 salt2 (quiet (file ++ tail))
          ≡ (ok (last, recovered last (length tail)), quiet file)
    unfolding recover size read from_header
    recover_lem salt1 salt2 stops =
        rw (first, usable_header_lem)
          (let (s, run, same_wal, same_end) = ends stops in
            (λ i. continue (begin i).0 (λ s. finish s total) (begin i).1)
            ∙ ap (λ (r : Result Progress × Disk). continue r.0 (λ s. finish s total) r.1) run
            ∙ finish_lem s last file tail same_wal (same_end ∙ end_offset)
                (after_all-IsLog start ts start-IsLog).next_is
                (after_all-read_only start ts ∙ writable))
      where
        first : take 48 (file ++ tail) ≡ encode_wal_header h
        first =
            ap (take 48) split
            ∙ take_exact (encode_wal_header h) (bytes_of_all start ts ++ tail) header_length

        begin :
            replay total total (record (at start) { valid_end = 48 }) (quiet (file ++ tail))
            ≡ replay total total (at start) (quiet (file ++ tail))
        begin = λ i.
            replay total total (record (at start) { valid_end = sym (first_offset page_size) i })
              (quiet (file ++ tail))

-- The log of a header and transactions, and its file.
abbrev pub log_of : ℕ → OpenOptions → WalHeader → List Transaction → Wal
log_of page_size o h ts = after_all (with_header (fresh page_size o 0 0) h) ts

abbrev pub file_of : ℕ → OpenOptions → WalHeader → List Transaction → Bytes
file_of page_size o h ts = log_file (with_header (fresh page_size o 0 0) h) ts

pub log_of-IsLog :
    (page_size : ℕ) (o : OpenOptions) (h : WalHeader) (ts : List Transaction) (v : IsWalHeader h)
    → h.page_size ≡ page_size
    → h.db_id ≡ o.db_id
    → IsLog (log_of page_size o h ts)
log_of-IsLog page_size o h ts v page_size_ok db_id_ok =
    after_all-IsLog _ ts (start-IsLog page_size o h v page_size_ok db_id_ok)

module _ (page_size : ℕ) (o : OpenOptions) (h : WalHeader) (ts : List Transaction)
    (v : IsWalHeader h) (page_size_ok : h.page_size ≡ page_size) (db_id_ok : h.db_id ≡ o.db_id)
    (writable : o.read_only ≡ false) (valid : All (IsTransaction page_size) ts)
    (salt1 salt2 : ℕ) where
  -- Opening a log after a crash within the write of a transaction gives back the log of the transactions
  -- before it, with all of its maps, and cuts the file back to them.
  pub recover_torn_log :
      (t : Transaction) (k : ℕ)
      → IsTransaction page_size t
      → k < length (bytes_of (log_of page_size o h ts) t)
      → recover
          (fresh page_size o 0 0)
          o.db_id
          salt1
          salt2
          (quiet (file_of page_size o h ts ++ take k (bytes_of (log_of page_size o h ts) t)))
        ≡ (
          ok (log_of page_size o h ts, recovered (log_of page_size o h ts) k),
          quiet (file_of page_size o h ts),
        )
  unfolding encode_frames encode_frame
  recover_torn_log t k vt short =
      recover_lem page_size o h v page_size_ok db_id_ok ts torn valid writable salt1 salt2 stops
      ∙ (λ i. (ok (w, recovered w (size i)), quiet (file_of page_size o h ts)))
    where
      w : Wal
      w = log_of page_size o h ts

      torn : Bytes
      torn = take k (bytes_of w t)

      size : length torn ≡ k
      size = omega (arith, length-take {0} k (bytes_of w t), short)

      images : All (IsImage w.page_size) (images_of t)
      images =
          subst (λ n. All (IsImage n) (images_of t))
            (sym (after_all-page_size (with_header (fresh page_size o 0 0) h) ts)) vt.images_ok

      stops : Stops page_size o h v page_size_ok db_id_ok ts torn valid writable
      stops fuel enough behind sum =
          replay-torn (at w) t.first t.rest t.db_size k fuel
            (length (file_of page_size o h ts ++ torn)) (file_of page_size o h ts ++ torn)
            (at-IsReady w (log_of-IsLog page_size o h ts v page_size_ok db_id_ok)) images short
            (omega (arith, enough, size)) behind (omega (arith, sum, size))

  -- Opening a log that was closed between transactions gives back the log of its transactions, with all of
  -- its maps, and leaves the file as it is.
  pub recover_log :
      recover (fresh page_size o 0 0) o.db_id salt1 salt2 (quiet (file_of page_size o h ts)) ≡ (
        ok (log_of page_size o h ts, recovered (log_of page_size o h ts) 0),
        quiet (file_of page_size o h ts),
      )
  recover_log =
      ap (λ bs. recover (fresh page_size o 0 0) o.db_id salt1 salt2 (quiet bs))
        (sym (append-nil (file_of page_size o h ts)))
      ∙ recover_lem page_size o h v page_size_ok db_id_ok ts [] valid writable salt1 salt2 stops
    where
      stops : Stops page_size o h v page_size_ok db_id_ok ts [] valid writable
      stops zero enough behind sum = absurd (omega (arith, enough))
      stops (suc fuel) enough behind sum =
          replay-short (at (log_of page_size o h ts)) fuel (length (file_of page_size o h ts ++ []))
            (file_of page_size o h ts ++ []) (omega (arith, sum))
