-- ===== src/Engine/WriteTxn/FreeList.antt =====
-- The free list of a write transaction of engine/src/engine/db.cpp.
use mathlib.Core.List.{append-nil}
use archivum.Base.{
  ℕ, suc, ◌+◌, ◌^◌, ◌<◌, ◌≡◌, ◌≢◌, refl, sym, ap, ◌∙◌, subst, arith, leb, false, List, [], ◌∷◌,
  ◌++◌, All, Bytes,
}
use archivum.Status.{Result, ok, value_or, ◌>>=◌}
use archivum.Engine.PageFormat.{encode_free_page, decode_free_page}
use archivum.Engine.PageFormat.Headers.{decode-encode_free_page}
use archivum.Engine.BTree.Overflow.RoundTrip.{Distinct}
use archivum.Engine.WriteTxn.{
  WriteTxn, with_page, grown, without_head, with_head, read_page, next_free, free_page,
}
use archivum.Engine.WriteTxn.View.{Room, zeros, Allocation, grows, reuses, listed_within}
use archivum.Engine.WriteTxn.PageLists.{upto}

module _ (page_size : ℕ) (read_committed : ℕ → Result Bytes) where
  abbrev read : ℕ → WriteTxn → Result Bytes
  read = read_page page_size read_committed

  -- The free list that starts at the page: each page of it names the next, and the last names none.
  abbrev pub IsFree : WriteTxn → ℕ → List ℕ → Type 0
  IsFree t head [] = head ≡ 0
  IsFree t head (p ∷ fs) =
      (head ≡ p)
      × (p ≢ 0)
      × ((next : ℕ) × ((read p t >>= decode_free_page) ≡ ok next) × IsFree t next fs)

  pub IsFree-same :
      (t t' : WriteTxn) (head : ℕ) (fs : List ℕ)
      → All (λ p. read p t' ≡ read p t) fs
      → IsFree t head fs
      → IsFree t' head fs
  IsFree-same t t' head [] a f = f
  IsFree-same t t' head (p ∷ fs) a (e, real, (next, says, f)) =
      (e, real, (next, ap (λ r. r >>= decode_free_page) a.0 ∙ says, IsFree-same t t' next fs a.1 f))

  pub IsFree-within :
      (t : WriteTxn) (head : ℕ) (fs : List ℕ)
      → t.finished ≡ false
      → IsFree t head fs
      → All (λ p. p < t.header.page_count) fs
  IsFree-within t head [] o f = tt
  IsFree-within t head (p ∷ fs) o (e, real, (next, says, f)) =
      (listed_within page_size read_committed t p next o says, IsFree-within t next fs o f)

  read-with_page_other :
      (t : WriteTxn) (p q : ℕ) (bs : Bytes) → q ≢ p → read p (with_page q bs t) ≡ read p t
  unfolding read_page with_page
  read-with_page_other t p q bs h = ground arith

  pub reads_same :
      (t : WriteTxn) (q : ℕ) (bs : Bytes) (fs : List ℕ)
      → All (λ p. q ≢ p) fs
      → All (λ p. read p (with_page q bs t) ≡ read p t) fs
  reads_same t q bs [] a = tt
  reads_same t q bs (p ∷ fs) a = (read-with_page_other t p q bs a.0, reads_same t q bs fs a.1)

  reads_without_head :
      (t : WriteTxn) (next : ℕ) (fs : List ℕ)
      → All (λ p. read p (without_head next t) ≡ read p t) fs
  unfolding read_page without_head
  reads_without_head t next [] = tt
  reads_without_head t next (p ∷ fs) = (refl, reads_without_head t next fs)

  IsFree-without_head :
      (t : WriteTxn) (next : ℕ) (fs : List ℕ)
      → All (λ y. t.header.freelist_head ≢ y) fs
      → IsFree t next fs
      → IsFree
          (with_page t.header.freelist_head (zeros page_size read_committed) (without_head next t))
          next
          fs
  IsFree-without_head t next fs a f =
      IsFree-same (without_head next t) _ next fs (reads_same (without_head next t) _ _ fs a)
        (IsFree-same t (without_head next t) next fs (reads_without_head t next fs) f)

  -- An allocation takes the head of the free list, or the page behind the file when nothing is free.
  pub allocate_page-IsFree :
      (n : ℕ) (t t' : WriteTxn) (p : ℕ) (fs : List ℕ)
      → Room (suc n) t
      → Allocation page_size read_committed t p t'
      → IsFree t t.header.freelist_head fs
      → Distinct fs
      → (rest : List ℕ) × (k : ℕ) × (p ∷ rest ≡ fs ++ upto t.header.page_count k)
        × IsFree t' t'.header.freelist_head rest
        × Distinct rest
        × (t'.header.page_count ≡ t.header.page_count + k)
  unfolding with_page grown without_head next_free read_page
  allocate_page-IsFree n t t' p [] m (grows opened full same after) f d = (
    [],
    1,
    ap (λ x. x ∷ []) same,
    subst (λ u. u.header.freelist_head ≡ 0) after full,
    tt,
    ap (λ u. u.header.page_count) (sym after) ∙ omega (arith, m),
  )
  allocate_page-IsFree n t t' p (q ∷ fs) m (grows opened full same after) (e, real, f) d =
      absurd (real (sym e ∙ full))
  allocate_page-IsFree n t t' p [] m (reuses next opened listed found same after) f d =
      absurd (listed f)
  allocate_page-IsFree n t t' p (q ∷ fs) m (reuses next opened listed found same after)
        (e, real, (next', says, f)) d =
      let agree : next' ≡ next =
        ap (value_or 0) (sym says ∙ ap (λ x. read x t >>= decode_free_page) (sym e) ∙ found) in
      (
        fs,
        0,
        (λ i. (same ∙ e) i ∷ sym (append-nil fs) i),
        subst (λ u. IsFree u u.header.freelist_head fs) after
            (IsFree-without_head t next fs (subst (λ x. All (λ y. x ≢ y) fs) (sym e) d.0)
              (subst (λ x. IsFree t x fs) agree f)),
        d.1,
        ap (λ u. u.header.page_count) (sym after) ∙ omega arith,
      )

  -- What a release that succeeded has been through.
  pub free_page-ok :
      (t t' : WriteTxn) (p : ℕ)
      → free_page page_size read_committed p t ≡ (ok tt, t')
      → (leb t.header.page_count p ≡ false)
        × (p ≢ 0)
        × (with_head p (
              with_page p
                (encode_free_page t.header.freelist_head (zeros page_size read_committed))
                t)
            ≡ t')
  unfolding free_page
  free_page-ok t t' p h = ground arith

  reads_with_head :
      (t : WriteTxn) (q : ℕ) (fs : List ℕ) → All (λ p. read p (with_head q t) ≡ read p t) fs
  unfolding read_page with_head
  reads_with_head t q [] = tt
  reads_with_head t q (p ∷ fs) = (refl, reads_with_head t q fs)

  head-lt :
      (t : WriteTxn) (head : ℕ) (fs : List ℕ)
      → t.finished ≡ false
      → t.header.page_count < 2 ^ 64
      → IsFree t head fs
      → head < 2 ^ 64
  head-lt t head [] o m f = omega (arith, f)
  head-lt t head (p ∷ fs) o m f = omega (arith, f.0, (IsFree-within t head (p ∷ fs) o f).0, m)

  released_read :
      (t : WriteTxn) (p : ℕ) (bs : Bytes)
      → t.finished ≡ false
      → leb t.header.page_count p ≡ false
      → read p (with_head p (with_page p bs t)) ≡ ok bs
  unfolding read_page with_head with_page
  released_read t p bs o h = ground arith

  -- A release puts the page in front of the free list.
  pub free_page-IsFree :
      (t t' : WriteTxn) (p : ℕ) (fs : List ℕ)
      → t.finished ≡ false
      → t.header.page_count < 2 ^ 64
      → free_page page_size read_committed p t ≡ (ok tt, t')
      → IsFree t t.header.freelist_head fs
      → All (λ q. p ≢ q) fs
      → IsFree t' t'.header.freelist_head (p ∷ fs)
        × (t'.header.page_count ≡ t.header.page_count)
        × (t'.finished ≡ false)
  unfolding with_head with_page
  free_page-IsFree t t' p fs o m h f a =
      let (inside, real, after) = free_page-ok t t' p h in
      subst
        (λ u.
          IsFree u u.header.freelist_head (p ∷ fs)
          × (u.header.page_count ≡ t.header.page_count)
          × (u.finished ≡ false))
        after (placed inside real)
    where
      link : Bytes
      link = encode_free_page t.header.freelist_head (zeros page_size read_committed)

      placed :
          leb t.header.page_count p ≡ false
          → p ≢ 0
          → IsFree
              (with_head p (with_page p link t))
              (with_head p (with_page p link t)).header.freelist_head
              (p ∷ fs)
            × ((with_head p (with_page p link t)).header.page_count ≡ t.header.page_count)
            × ((with_head p (with_page p link t)).finished ≡ false)
      placed inside real = (
        (
          refl,
          real,
          (
            t.header.freelist_head,
            ap (λ r. r >>= decode_free_page) (released_read t p link o inside)
                ∙ decode-encode_free_page t.header.freelist_head _ (head-lt t _ fs o m f),
            IsFree-same (with_page p link t) _ _ fs (reads_with_head (with_page p link t) p fs)
                (IsFree-same t (with_page p link t) _ fs (reads_same t p link fs a) f),
          ),
        ),
        refl,
        o,
      )
