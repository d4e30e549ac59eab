-- ===== src/Engine/Wal/Visible.antt =====
-- What a transaction that is in the index of engine/src/engine/wal.cpp shows to a snapshot behind it.
use archivum.Base.{
  ℕ, ◌+◌, ◌==◌, ◌-◌, false≢true, ◌≤◌, ◌≡◌, ◌≢◌, length-append, refl, sym, ap, ◌∙◌, subst, arith,
  true, false, List, [], ◌∷◌, ◌++◌, All, length, Bool-cases, inl, inr,
}
use archivum.Status.{ErrorCode, Status, ok, err, crashed, is_ok}
use archivum.Vfs.{Disk}
use archivum.Engine.Wal.{Wal, index_add, index_add_all}
use archivum.Engine.Wal.Operations.{
  PageImage, latest_before, frames_of, number_frames, find, committed, report, encode_frames,
  discard_uncommitted, sizes_ok, append_transaction,
}
use archivum.Engine.Wal.Failure.{written, append_transaction-committed}

-- No frame of the index is behind the snapshot.
abbrev pub IsSeen : ℕ → List (ℕ × List ℕ) → Type 0
IsSeen snapshot index = All (λ (e : ℕ × List ℕ). All (λ f. f ≤ snapshot) e.1) index

All-snoc :
    (snapshot f : ℕ) (fs : List ℕ)
    → All (λ g. g ≤ snapshot) fs
    → f ≤ snapshot
    → All (λ g. g ≤ snapshot) (fs ++ f ∷ [])
All-snoc snapshot f [] a h = (h, tt)
All-snoc snapshot f (g ∷ fs) a h = (a.0, All-snoc snapshot f fs a.1 h)

latest_before-newest :
    (best : ℕ) (fs : List ℕ) (f snapshot : ℕ)
    → All (λ g. g ≤ snapshot) fs
    → f ≤ snapshot
    → latest_before best (fs ++ f ∷ []) snapshot ≡ f
unfolding latest_before
latest_before-newest best [] f snapshot a h = ground arith
latest_before-newest best (g ∷ fs) f snapshot a h =
    ground (arith, a.0, latest_before-newest g fs f snapshot a.1 h)

index_add-IsSeen :
    (page f snapshot : ℕ) (index : List (ℕ × List ℕ))
    → IsSeen snapshot index
    → f ≤ snapshot
    → IsSeen snapshot (index_add page f index)
unfolding index_add
index_add-IsSeen page f snapshot [] a h = ((h, tt), tt)
index_add-IsSeen page f snapshot ((p, fs) ∷ rest) a h = elim (Bool-cases (p == page)) [
  | inl same ↦ rw same (All-snoc snapshot f fs a.0 h, a.1)
  | inr other ↦ rw other (a.0, index_add-IsSeen page f snapshot rest a.1 h)
]

-- The frame that was added is the latest of its page.
latest-index_add_self :
    (page f snapshot : ℕ) (index : List (ℕ × List ℕ))
    → IsSeen snapshot index
    → f ≤ snapshot
    → latest_before 0 (frames_of page (index_add page f index)) snapshot ≡ f
unfolding index_add frames_of latest_before
latest-index_add_self page f snapshot [] a h = ground arith
latest-index_add_self page f snapshot ((p, fs) ∷ rest) a h = ground (
  arith,
  latest_before-newest 0 fs f snapshot a.0 h,
  latest-index_add_self page f snapshot rest a.1 h,
)

-- Adding a frame to a page leaves the others alone.
frames_of-index_add_other :
    (page page' f : ℕ) (index : List (ℕ × List ℕ))
    → (page' == page) ≡ false
    → frames_of page (index_add page' f index) ≡ frames_of page index
unfolding index_add frames_of
frames_of-index_add_other page page' f [] h = ground arith
frames_of-index_add_other page page' f ((p, fs) ∷ rest) h =
    ground (arith, frames_of-index_add_other page page' f rest h)

frames_of-index_add_all_other :
    (page n : ℕ) (images : List PageImage) (index : List (ℕ × List ℕ))
    → All (λ (i : PageImage). i.page ≢ page) images
    → frames_of page (index_add_all (number_frames n images) index) ≡ frames_of page index
unfolding index_add_all number_frames
frames_of-index_add_all_other page n [] index a = refl
frames_of-index_add_all_other page n (image ∷ rest) index a =
    frames_of-index_add_all_other page (n + 1) rest (index_add image.page n index) a.1
    ∙ frames_of-index_add_other page image.page n index (other image.page a.0)
  where
    other : (p : ℕ) → p ≢ page → (p == page) ≡ false
    other p h = ground arith

-- The last image of a page gives the frame that is found.
index_add_all-latest :
    (n snapshot : ℕ) (xs : List PageImage) (i : PageImage) (ys : List PageImage)
    (index : List (ℕ × List ℕ))
    → IsSeen snapshot index
    → n + length (xs ++ i ∷ ys) ≤ snapshot + 1
    → All (λ (y : PageImage). y.page ≢ i.page) ys
    → latest_before 0
        (frames_of i.page (index_add_all (number_frames n (xs ++ i ∷ ys)) index))
        snapshot
      ≡ n + length xs
unfolding index_add_all number_frames
index_add_all-latest n snapshot [] i ys index a h last =
    ap (λ fs. latest_before 0 fs snapshot)
      (frames_of-index_add_all_other i.page (n + 1) ys (index_add i.page n index) last)
    ∙ latest-index_add_self i.page n snapshot index a (omega (arith, h))
    ∙ omega arith
index_add_all-latest n snapshot (x ∷ xs) i ys index a h last =
    index_add_all-latest (n + 1) snapshot xs i ys (index_add x.page n index)
      (index_add-IsSeen x.page n snapshot index a (omega (arith, h))) (omega (arith, h)) last
    ∙ omega arith

is_ok-report : (e : ErrorCode) (s : Status) → is_ok (report e s) ≡ false
unfolding report
is_ok-report e (err crashed) = refl
is_ok-report e s = refl

committed-find :
    (s : Status) (w : Wal) (xs : List PageImage) (i : PageImage) (ys : List PageImage)
    (db_size running : ℕ) (d : Disk)
    → IsSeen (w.next_frame + length (xs ++ i ∷ ys) - 1) w.index
    → All (λ (y : PageImage). y.page ≢ i.page) ys
    → (committed s w (xs ++ i ∷ ys) db_size running d).0 ≡ ok tt
    → find
        (committed s w (xs ++ i ∷ ys) db_size running d).1
        i.page
        (w.next_frame + length (xs ++ i ∷ ys) - 1)
      ≡ w.next_frame + length xs
unfolding committed find
committed-find (ok u) w xs i ys db_size running d a last h =
    index_add_all-latest w.next_frame (w.next_frame + length (xs ++ i ∷ ys) - 1) xs i ys w.index a
      (omega (arith, length-append xs (i ∷ ys))) last
committed-find (err e) w xs i ys db_size running d a last h =
    absurd (false≢true (sym (is_ok-report e (discard_uncommitted w d).0) ∙ ap is_ok h))

-- A transaction whose append succeeds is visible: the snapshot of its last frame finds for a page that the
-- transaction writes the frame of the last image of that page, the n-th image in the n-th frame of the
-- transaction. The log is open for writing and has not failed, the images have the size of a page, and the
-- frames of the index are not behind that snapshot.
pub append_transaction-visible :
    (w : Wal) (xs : List PageImage) (i : PageImage) (ys : List PageImage) (db_size : ℕ) (d : Disk)
    → w.read_only ≡ false
    → w.failed ≡ false
    → sizes_ok w.page_size (xs ++ i ∷ ys) ≡ true
    → IsSeen (w.next_frame + length (xs ++ i ∷ ys) - 1) w.index
    → All (λ (y : PageImage). y.page ≢ i.page) ys
    → (append_transaction w (xs ++ i ∷ ys) db_size d).0 ≡ ok tt
    → find
        (append_transaction w (xs ++ i ∷ ys) db_size d).1
        i.page
        (w.next_frame + length (xs ++ i ∷ ys) - 1)
      ≡ w.next_frame + length xs
append_transaction-visible w xs i ys db_size d writable working sized a last h =
    subst
      (λ (r : Status × Wal × Disk).
        find r.1 i.page (w.next_frame + length (xs ++ i ∷ ys) - 1) ≡ w.next_frame + length xs)
      (sym (step xs sized))
      (committed-find _ w xs i ys db_size _ _ a last (sym (ap (λ r. r.0) (step xs sized)) ∙ h))
  where
    step :
        (zs : List PageImage)
        → sizes_ok w.page_size (zs ++ i ∷ ys) ≡ true
        → append_transaction w (zs ++ i ∷ ys) db_size d
          ≡ committed
              (written w (zs ++ i ∷ ys) db_size d).0
              w
              (zs ++ i ∷ ys)
              db_size
              (encode_frames w (zs ++ i ∷ ys) db_size w.chain).1
              (written w (zs ++ i ∷ ys) db_size d).1
    step [] z = append_transaction-committed w i ys db_size d writable working z
    step (x ∷ zs) z = append_transaction-committed w x (zs ++ i ∷ ys) db_size d writable working z
