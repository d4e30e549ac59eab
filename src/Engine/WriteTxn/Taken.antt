-- ===== src/Engine/WriteTxn/Taken.antt =====
-- The free list while overflow pages are taken and written, within a write transaction of
-- engine/src/engine/db.cpp.
use mathlib.Core.List.{append-nil, append_assoc}
use archivum.Base.{
  ℕ, zero, suc, ◌+◌, ◌≡◌, ◌≢◌, refl, sym, ap, ◌∙◌, subst, arith, List, [], ◌∷◌, ◌++◌, All, Bytes,
  take, drop,
}
use archivum.Status.{Result, ok, value_or}
use archivum.Engine.BTree.Pages.{and_then, and_then-ok}
use archivum.Engine.BTree.Overflow.{capacity, overflow_image, first_of, allocate_all, write_chain}
use archivum.Engine.BTree.Overflow.RoundTrip.{Distinct}
use archivum.Engine.WriteTxn.{WriteTxn, with_page, grown, without_head, allocate_page, txn_pages}
use archivum.Engine.WriteTxn.View.{
  Room, Allocation, grows, reuses, allocate_page-Allocation, written,
}
use archivum.Engine.WriteTxn.Laws.{Room-allocate_page}
use archivum.Engine.WriteTxn.PageLists.{upto, upto-append, All-right}
use archivum.Engine.WriteTxn.FreeList.{IsFree, IsFree-same, reads_same, allocate_page-IsFree}

joined :
    (p : ℕ) (ps qs fs rest1 rest : List ℕ) (n n1 k1 k : ℕ)
    → (p ∷ qs) ≡ ps
    → p ∷ rest1 ≡ fs ++ upto n k1
    → qs ++ rest ≡ rest1 ++ upto n1 k
    → n1 ≡ n + k1
    → ps ++ rest ≡ fs ++ upto n (k1 + k)
joined p ps qs fs rest1 rest n n1 k1 k taken split1 split grown1 =
    ap (λ x. x ++ rest) (sym taken)
    ∙ ap (◌∷◌ p) split
    ∙ ap (λ x. x ++ upto n1 k) split1
    ∙ append_assoc fs (upto n k1) (upto n1 k)
    ∙ ap (λ x. fs ++ (upto n k1 ++ upto x k)) grown1
    ∙ ap (◌++◌ fs) (upto-append n k1 k)

module _ (page_size : ℕ) (read_committed : ℕ → Result Bytes) where
  abbrev pub Listed : WriteTxn → List ℕ → Type 0
  Listed t fs = IsFree page_size read_committed t t.header.freelist_head fs

  Allocation-finished :
      (t t' : WriteTxn) (p : ℕ)
      → Allocation page_size read_committed t p t'
      → t'.finished ≡ t.finished
  unfolding with_page grown without_head
  Allocation-finished t t' p (grows opened full same after) = ap (λ u. u.finished) (sym after)
  Allocation-finished t t' p (reuses next opened listed found same after) =
      ap (λ u. u.finished) (sym after)

  -- The pages that were allocated and those still free are those that were free and those by which the file grew.
  pub allocate_all-Listed :
      (n : ℕ) (t t' : WriteTxn) (ps fs : List ℕ)
      → Room n t
      → Listed t fs
      → Distinct fs
      → allocate_all WriteTxn (txn_pages page_size read_committed) page_size n t ≡ (ok ps, t')
      → (rest : List ℕ) × (k : ℕ) × (ps ++ rest ≡ fs ++ upto t.header.page_count k)
        × Listed t' rest
        × (t'.header.page_count ≡ t.header.page_count + k)
        × Room 0 t'
        × (t'.finished ≡ t.finished)
  unfolding allocate_all txn_pages
  allocate_all-Listed zero t t' ps fs m f d e =
      let same : t ≡ t' = ap (λ r. r.1) e in
      let none_taken : [] ≡ ps = ap (λ (r : Result (List ℕ) × WriteTxn). value_or [] r.0) e in
      (
        fs,
        0,
        ap (λ x. x ++ fs) (sym none_taken) ∙ sym (append-nil fs),
        subst (λ u. Listed u fs) same f,
        ap (λ u. u.header.page_count) (sym same) ∙ omega arith,
        subst (Room 0) same m,
        ap (λ u. u.finished) (sym same),
      )
  allocate_all-Listed (suc n) t t' ps fs m f d e =
      let (p, t1, alloc, more) =
        and_then-ok (allocate_page page_size read_committed t)
          (λ p s1.
            and_then (allocate_all WriteTxn (txn_pages page_size read_committed) page_size n s1)
              (λ qs s2. (ok (p ∷ qs), s2)))
          ps t' e in
      let (qs, t2, others, done) =
        and_then-ok (allocate_all WriteTxn (txn_pages page_size read_committed) page_size n t1)
          (λ qs s2. (ok (p ∷ qs), s2)) ps t' more in
      let made = allocate_page-Allocation page_size read_committed t t1 p alloc in
      let m1 : Room n t1 = (Room-allocate_page page_size read_committed n t t1 p m made).2 in
      let (rest1, k1, split1, f1, d1, grown1) =
        allocate_page-IsFree page_size read_committed n t t1 p fs m made f d in
      let (rest, k, split, f2, grown2, m2, o2) =
        allocate_all-Listed n t1 t2 qs rest1 m1 f1 d1 others in
      let taken : (p ∷ qs) ≡ ps = ap (λ (r : Result (List ℕ) × WriteTxn). value_or [] r.0) done in
      let same : t2 ≡ t' = ap (λ r. r.1) done in
      (
        rest,
        k1 + k,
        joined p ps qs fs rest1 rest t.header.page_count t1.header.page_count k1 k taken split1
            split grown1,
        subst (λ u. Listed u rest) same f2,
        ap (λ u. u.header.page_count) (sym same) ∙ omega (arith, grown1, grown2),
        subst (Room 0) same m2,
        ap (λ u. u.finished) (sym same) ∙ o2 ∙ Allocation-finished t t1 p made,
      )

  left_alone :
      (t : WriteTxn) (p : ℕ) (bs : Bytes) (fs : List ℕ)
      → All (λ q. p ≢ q) fs
      → Listed t fs
      → Listed (with_page p bs t) fs
  unfolding with_page
  left_alone t p bs fs a f =
      IsFree-same page_size read_committed t (with_page p bs t) t.header.freelist_head fs
        (reads_same page_size read_committed t p bs fs a) f

  same_file :
      (t : WriteTxn) (p : ℕ) (bs : Bytes)
      → (with_page p bs t).header.page_count ≡ t.header.page_count
  unfolding with_page
  same_file t p bs = refl

  same_finish : (t : WriteTxn) (p : ℕ) (bs : Bytes) → (with_page p bs t).finished ≡ t.finished
  unfolding with_page
  same_finish t p bs = refl

  -- Writing pages that are not free leaves the free list.
  pub write_chain-Listed :
      (ps : List ℕ) (value : Bytes) (t t' : WriteTxn) (fs : List ℕ)
      → Listed t fs
      → Distinct (ps ++ fs)
      → write_chain WriteTxn (txn_pages page_size read_committed) page_size ps value t ≡ (ok tt, t')
      → Listed t' fs × (t'.header.page_count ≡ t.header.page_count) × (t'.finished ≡ t.finished)
  unfolding write_chain txn_pages
  write_chain-Listed [] value t t' fs f d e =
      let same : t ≡ t' = ap (λ r. r.1) e in
      (
        subst (λ u. Listed u fs) same f,
        ap (λ u. u.header.page_count) (sym same),
        ap (λ u. u.finished) (sym same),
      )
  write_chain-Listed (p ∷ ps) value t t' fs f d e =
      let (u, t1, w, more) = and_then-ok _ _ tt t' e in
      let (o, inside, after) = written page_size read_committed t t1 p image w in
      let (f1, same_count, same_end) =
        write_chain-Listed ps (drop (capacity page_size) value) t1 t' fs
          (subst (λ u. Listed u fs) after
            (left_alone t p image fs (All-right (λ q. p ≢ q) ps fs d.0) f))
          d.1 more in
      (
        f1,
        same_count ∙ ap (λ u. u.header.page_count) (sym after) ∙ same_file t p image,
        same_end ∙ ap (λ u. u.finished) (sym after) ∙ same_finish t p image,
      )
    where
      image : Bytes
      image = overflow_image page_size (first_of ps) (take (capacity page_size) value)
