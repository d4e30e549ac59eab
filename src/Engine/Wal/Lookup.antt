-- ===== src/Engine/Wal/Lookup.antt =====
-- The index of engine/src/engine/wal.cpp: what a snapshot finds, and that appending leaves it alone.
use archivum.Base.{
  ℕ, ◌+◌, ◌==◌, ◌≤◌, ◌<◌, ◌≡◌, refl, sym, subst, ◌∙◌, arith, leb, if◌then◌else◌, Bool, true, false,
  not, ◌||◌, List, [], ◌∷◌, ◌++◌, All, ◌⊎◌, Bool-cases, inl, inr,
}
use archivum.Status.{Status, ok, err}
use archivum.Vfs.{Disk}
use archivum.Engine.Wal.{Wal, index_add, index_add_all}
use archivum.Engine.Wal.Operations.{
  PageImage, latest_before, frames_of, find, number_frames, append_transaction, committed, sizes_ok,
}

-- A frame behind the snapshot is not found.
latest_before-append :
    (best : ℕ) (fs : List ℕ) (f snapshot : ℕ)
    → snapshot < f
    → latest_before best (fs ++ f ∷ []) snapshot ≡ latest_before best fs snapshot
unfolding latest_before
latest_before-append best [] f snapshot h = ground arith
latest_before-append best (g ∷ fs) f snapshot h =
    ground (arith, latest_before-append g fs f snapshot h)

latest-index_add :
    (page page' f snapshot : ℕ) (index : List (ℕ × List ℕ))
    → snapshot < f
    → latest_before 0 (frames_of page (index_add page' f index)) snapshot
      ≡ latest_before 0 (frames_of page index) snapshot
unfolding frames_of index_add latest_before
latest-index_add page page' f snapshot [] h = ground arith
latest-index_add page page' f snapshot ((p, fs) ∷ rest) h =
    ground
      (arith, latest-index_add page page' f snapshot rest h, latest_before-append 0 fs f snapshot h)

latest-index_add_all :
    (page n snapshot : ℕ) (images : List PageImage) (index : List (ℕ × List ℕ))
    → snapshot < n
    → latest_before 0 (frames_of page (index_add_all (number_frames n images) index)) snapshot
      ≡ latest_before 0 (frames_of page index) snapshot
unfolding index_add_all number_frames
latest-index_add_all page n snapshot [] index h = refl
latest-index_add_all page n snapshot (image ∷ rest) index h =
    latest-index_add_all page (n + 1) snapshot rest (index_add image.page n index) (omega arith)
    ∙ latest-index_add page image.page n snapshot index h

find-committed :
    (s : Status) (w : Wal) (images : List PageImage) (db_size running : ℕ) (d : Disk)
    (page snapshot : ℕ)
    → snapshot < w.next_frame
    → find (committed s w images db_size running d).1 page snapshot ≡ find w page snapshot
unfolding committed find
find-committed (ok u) w images db_size running d page snapshot h =
    latest-index_add_all page w.next_frame snapshot images w.index h
find-committed (err e) w images db_size running d page snapshot h = refl

-- The guards of `append_transaction` return the log as it was.
find-guards :
    (a b c : Bool) (w : Wal) (s t u : Status) (d : Disk) (r : Status × Wal × Disk)
    (page snapshot : ℕ)
    → find r.1 page snapshot ≡ find w page snapshot
    → find
        (if a then (s, w, d) else if b then (t, w, d) else if c then (u, w, d) else r).1
        page
        snapshot
      ≡ find w page snapshot
find-guards true b c w s t u d r page snapshot h = refl
find-guards false true c w s t u d r page snapshot h = refl
find-guards false false true w s t u d r page snapshot h = refl
find-guards false false false w s t u d r page snapshot h = h

-- Appending a transaction, whether it succeeds or not, leaves what an older snapshot finds: of a
-- snapshot before the next frame, every page has the frame it had.
pub find-append_transaction :
    (w : Wal) (images : List PageImage) (db_size : ℕ) (d : Disk) (page snapshot : ℕ)
    → snapshot < w.next_frame
    → find (append_transaction w images db_size d).1 page snapshot ≡ find w page snapshot
unfolding append_transaction
find-append_transaction w [] db_size d page snapshot h = refl
find-append_transaction w (image ∷ rest) db_size d page snapshot h =
    find-guards w.read_only w.failed (not (sizes_ok w.page_size (image ∷ rest))) w _ _ _ d _ page
      snapshot (find-committed _ w (image ∷ rest) db_size _ _ page snapshot h)

-- Each number above the one before.
abbrev pub Ascending : ℕ → List ℕ → Type 0
Ascending low [] = Unit {0}
Ascending low (f ∷ fs) = (low < f) × Ascending f fs

abbrev pub is_among : ℕ → List ℕ → Bool
is_among f [] = false
is_among f (g ∷ gs) = f == g || is_among f gs

-- What a frame is to the frames of a page and a snapshot: not behind the snapshot, one of them or the
-- start, and not below any of them that is not behind the snapshot.
abbrev pub IsLatest : ℕ → List ℕ → ℕ → ℕ → Type 0
IsLatest best fs snapshot f =
    (f ≤ snapshot)
    × (best ≤ f)
    × ((f ≡ best) ⊎ (is_among f fs ≡ true))
    × All (λ g. (snapshot < g) ⊎ (g ≤ f)) fs

All-behind :
    (low : ℕ) (fs : List ℕ) (snapshot best : ℕ)
    → Ascending low fs
    → snapshot ≤ low
    → All (λ g. (snapshot < g) ⊎ (g ≤ best)) fs
All-behind low [] snapshot best a h = tt
All-behind low (f ∷ fs) snapshot best a h =
    (inl (omega (arith, a.0)), All-behind f fs snapshot best a.1 (omega (arith, a.0)))

latest_before-IsLatest :
    (best : ℕ) (fs : List ℕ) (snapshot : ℕ)
    → Ascending best fs
    → best ≤ snapshot
    → IsLatest best fs snapshot (latest_before best fs snapshot)
unfolding latest_before
latest_before-IsLatest best [] snapshot a h = (h, omega arith, inl refl, tt)
latest_before-IsLatest best (f ∷ fs) snapshot a h = elim (Bool-cases (leb f snapshot)) [
  | inl seen ↦
      let (bound, above, one, rest) = latest_before-IsLatest f fs snapshot a.1 (ground arith) in
      subst (IsLatest best (f ∷ fs) snapshot) (sym (moves seen))
        (bound, omega (arith, a.0, above), inr (ground (arith, one)), (inr above, rest))
  | inr behind ↦ subst (IsLatest best (f ∷ fs) snapshot) (sym (stays behind)) (
    h,
    omega arith,
    inl refl,
    (inl (ground arith), All-behind f fs snapshot best a.1 (ground arith)),
  )
]
  where
    moves :
        leb f snapshot ≡ true → latest_before best (f ∷ fs) snapshot ≡ latest_before f fs snapshot
    moves seen = rw seen

    stays : leb f snapshot ≡ false → latest_before best (f ∷ fs) snapshot ≡ best
    stays behind = rw behind

-- What `find` gives for a page whose frames ascend: no frame behind the snapshot; 0 or one of the frames
-- of the page; and no frame of the page up to the snapshot is newer.
pub find-IsLatest :
    (w : Wal) (page snapshot : ℕ)
    → Ascending 0 (frames_of page w.index)
    → IsLatest 0 (frames_of page w.index) snapshot (find w page snapshot)
unfolding find
find-IsLatest w page snapshot a =
    latest_before-IsLatest 0 (frames_of page w.index) snapshot a (omega arith)
