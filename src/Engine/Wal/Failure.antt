-- ===== src/Engine/Wal/Failure.antt =====
-- What a failed append leaves in the log of engine/src/engine/wal.cpp.
use archivum.Base.{
  ℕ, ◌≡◌, refl, sym, ap, ◌∙◌, subst, arith, if◌then◌else◌, Bool, true, false, false≢true, not, List,
  ◌∷◌,
}
use archivum.Status.{ErrorCode, Status, ok, err, io_error, is_ok}
use archivum.Vfs.{Disk, ◌>>◌, write, sync}
use archivum.Engine.Wal.{Wal, frame_offset}
use archivum.Engine.Wal.Operations.{
  PageImage, append_transaction, committed, sizes_ok, encode_frames, reset,
}

passes :
    (a b c : Bool) (x y z t : Status × Wal × Disk)
    → a ≡ false
    → b ≡ false
    → c ≡ false
    → (if a then x else if b then y else if c then z else t) ≡ t
passes a b c x y z t p q r = ground arith

-- The write and the sync of a transaction.
abbrev pub written : Wal → List PageImage → ℕ → Disk → Status × Disk
written w images db_size d =
    (do
      write (frame_offset w.page_size w.next_frame) (encode_frames w images db_size w.chain).0
      sync)
      d

pub append_transaction-committed :
    (w : Wal) (image : PageImage) (rest : List PageImage) (db_size : ℕ) (d : Disk)
    → w.read_only ≡ false
    → w.failed ≡ false
    → sizes_ok w.page_size (image ∷ rest) ≡ true
    → append_transaction w (image ∷ rest) db_size d
      ≡ committed
          (written w (image ∷ rest) db_size d).0
          w
          (image ∷ rest)
          db_size
          (encode_frames w (image ∷ rest) db_size w.chain).1
          (written w (image ∷ rest) db_size d).1
unfolding append_transaction
append_transaction-committed w image rest db_size d writable working sized =
    passes w.read_only w.failed (not (sizes_ok w.page_size (image ∷ rest))) _ _ _ _ writable working
      (ap not sized)

committed_error :
    (s : Status) (w : Wal) (images : List PageImage) (db_size running : ℕ) (d : Disk)
    (e : ErrorCode)
    → (committed s w images db_size running d).0 ≡ err e
    → (committed s w images db_size running d).1 ≡ record w { failed = true }
unfolding committed
committed_error (ok u) w images db_size running d e h = absurd (false≢true (sym (ap is_ok h)))
committed_error (err c) w images db_size running d e h = refl

refuses :
    (w : Wal) (image : PageImage) (rest : List PageImage) (db_size : ℕ) (d : Disk)
    → append_transaction (record w { failed = true; read_only = false }) (image ∷ rest) db_size d
      ≡ (err io_error, record w { failed = true; read_only = false }, d)
unfolding append_transaction
refuses w image rest db_size d = refl

refuses_reset :
    (w : Wal) (base salt1 salt2 : ℕ) (d : Disk)
    → reset (record w { failed = true; read_only = false }) base salt1 salt2 d
      ≡ (err io_error, record w { failed = true; read_only = false }, d)
unfolding reset
refuses_reset w base salt1 salt2 d = refl

-- After a write or a sync of a transaction fails, every later append of a transaction and every reset is
-- refused as an I/O error and leaves the log and the disk alone.
pub append_transaction_error_sticks :
    (w : Wal) (image : PageImage) (rest : List PageImage) (db_size : ℕ) (d : Disk) (e : ErrorCode)
    (image' : PageImage) (rest' : List PageImage) (db_size' base salt1 salt2 : ℕ) (d' : Disk)
    → w.read_only ≡ false
    → w.failed ≡ false
    → sizes_ok w.page_size (image ∷ rest) ≡ true
    → (append_transaction w (image ∷ rest) db_size d).0 ≡ err e
    → (append_transaction
          (append_transaction w (image ∷ rest) db_size d).1
          (image' ∷ rest')
          db_size'
          d'
        ≡ (err io_error, (append_transaction w (image ∷ rest) db_size d).1, d'))
      × (reset (append_transaction w (image ∷ rest) db_size d).1 base salt1 salt2 d'
          ≡ (err io_error, (append_transaction w (image ∷ rest) db_size d).1, d'))
append_transaction_error_sticks w image rest db_size d e image' rest' db_size' base salt1 salt2 d'
      writable working sized h =
    (
      subst (λ v. append_transaction v (image' ∷ rest') db_size' d' ≡ (err io_error, v, d'))
          (sym left) (refuses w image' rest' db_size' d'),
      subst (λ v. reset v base salt1 salt2 d' ≡ (err io_error, v, d')) (sym left)
          (refuses_reset w base salt1 salt2 d'),
    )
  where
    step :
        append_transaction w (image ∷ rest) db_size d
        ≡ committed
            (written w (image ∷ rest) db_size d).0
            w
            (image ∷ rest)
            db_size
            (encode_frames w (image ∷ rest) db_size w.chain).1
            (written w (image ∷ rest) db_size d).1
    step = append_transaction-committed w image rest db_size d writable working sized

    left :
        (append_transaction w (image ∷ rest) db_size d).1
        ≡ record w { failed = true; read_only = false }
    left =
        ap (λ r. r.1) step
        ∙ committed_error (written w (image ∷ rest) db_size d).0 w (image ∷ rest) db_size _ _ e
            (sym (ap (λ r. r.0) step) ∙ h)
        ∙ (λ i. record w { failed = true; read_only = writable i })
