-- ===== src/Engine/WriteTxn/Release.antt =====
-- Overflow pages that are taken and given back within a write transaction of engine/src/engine/db.cpp.
use mathlib.Core.List.{reverse_aux, Perm}
use mathlib.Core.List.Permᴰ
use archivum.Base.{
  ℕ, zero, suc, ◌+◌, ◌-◌, ◌/◌, ◌^◌, ◌≤◌, ◌<◌, ◌≡◌, ◌≢◌, sym, ap, ◌∙◌, subst, arith, false≢true,
  false, List, [], ◌∷◌, ◌++◌, All, Bytes, length, take, drop,
}
use archivum.Status.{Result, Status, ok, err, corrupt, is_ok, value_or}
use archivum.LittleEndian.{get_u64}
use archivum.Engine.BTree.Pages.{Pages, and_then, and_then-ok, is_zero-false}
use archivum.Engine.BTree.Overflow.{
  capacity, overflow_image, first_of, allocate_all, write_chain, write_overflow, free_chain,
  free_overflow,
}
use archivum.Engine.BTree.Overflow.RoundTrip.{
  Distinct, Chain, next_back, part_size, write_overflow-Chain,
}
use archivum.Engine.WriteTxn.{WriteTxn, with_page, with_head, free_page, txn_pages}
use archivum.Engine.WriteTxn.View.{view, reads}
use archivum.Engine.WriteTxn.Laws.{txn-PageLaws}
use archivum.Engine.WriteTxn.PageLists.{upto, All-left, All-right, Distinct-append, Distinct-shift}
use archivum.Engine.WriteTxn.FreeList.{IsFree-within, free_page-ok, free_page-IsFree}
use archivum.Engine.WriteTxn.Taken.{Listed, allocate_all-Listed, write_chain-Listed}

free_chain-step :
    (S : Type 0) (pages : Pages S) (page_size hops p : ℕ) (s : S) (image : Bytes)
    → p ≢ 0
    → pages.read_page p s ≡ ok image
    → free_chain S pages page_size (suc hops) p s
      ≡ and_then
          (pages.free_page p s)
          (λ u s'. free_chain S pages page_size hops (get_u64 image) s')
unfolding free_chain
free_chain-step S pages page_size hops p s image real found = rw (is_zero-false p real, found)

module _ (page_size : ℕ) (read_committed : ℕ → Result Bytes) where
  abbrev Held : (13 ≤ page_size) → WriteTxn → List ℕ → Bytes → Type 0
  Held roomy =
      Chain WriteTxn (txn_pages page_size read_committed) (txn-PageLaws page_size read_committed)
        page_size roomy

  view-released :
      (t : WriteTxn) (p q : ℕ) (bs : Bytes)
      → p ≢ q
      → view (with_head p (with_page p bs t)) q ≡ view t q
  unfolding with_head with_page
  view-released t p q bs h = ground arith

  -- A released page is none of those that still hold the value.
  Held-released :
      (roomy : 13 ≤ page_size) (t : WriteTxn) (p : ℕ) (bs : Bytes) (ps : List ℕ) (value : Bytes)
      → All (λ q. p ≢ q) ps
      → Held roomy t ps value
      → Held roomy (with_head p (with_page p bs t)) ps value
  unfolding txn-PageLaws
  Held-released roomy t p bs [] value a c = c
  Held-released roomy t p bs (q ∷ ps) value a c = (
    c.0,
    c.1,
    c.2,
    view-released t p q bs a.0 ∙ c.3,
    Held-released roomy t p bs ps (drop (capacity page_size) value) a.1 c.4,
  )

  -- The pages of a value go to the front of the free list, each before those that were released earlier.
  free_chain-Listed :
      (roomy : 13 ≤ page_size) (hops : ℕ) (ps : List ℕ) (value : Bytes) (t t' : WriteTxn)
      (fs : List ℕ)
      → t.finished ≡ false
      → t.header.page_count < 2 ^ 64
      → Held roomy t ps value
      → Listed page_size read_committed t fs
      → Distinct (ps ++ fs)
      → free_chain WriteTxn (txn_pages page_size read_committed) page_size hops (first_of ps) t
        ≡ (ok tt, t')
      → Listed page_size read_committed t' (reverse_aux ps fs)
        × (t'.header.page_count ≡ t.header.page_count)
  unfolding free_chain txn_pages txn-PageLaws
  free_chain-Listed roomy zero [] value t t' fs o m c f d e =
      let same : t ≡ t' = ap (λ r. r.1) e in
      (
        subst (λ u. Listed page_size read_committed u fs) same f,
        ap (λ u. u.header.page_count) (sym same),
      )
  free_chain-Listed roomy (suc hops) [] value t t' fs o m c f d e =
      let same : t ≡ t' = ap (λ r. r.1) e in
      (
        subst (λ u. Listed page_size read_committed u fs) same f,
        ap (λ u. u.header.page_count) (sym same),
      )
  free_chain-Listed roomy zero (p ∷ ps) value t t' fs o m c f d e =
      absurd (false≢true (ap (λ (r : Status × WriteTxn). is_ok r.0) (sym ended ∙ e)))
    where
      ended :
          free_chain WriteTxn (txn_pages page_size read_committed) page_size zero p t
          ≡ (err corrupt, t)
      ended = rw (is_zero-false p c.0)
  free_chain-Listed roomy (suc hops) (p ∷ ps) value t t' fs o m c f d e =
      let (u, t1, gone, more) =
        and_then-ok (free_page page_size read_committed p t)
          (λ u s'.
            free_chain WriteTxn (txn_pages page_size read_committed) page_size hops (get_u64 image)
              s')
          tt t' (sym step ∙ e) in
      let (inside, real, after) = free_page-ok page_size read_committed t t1 p gone in
      let (f1, same_count, o1) =
        free_page-IsFree page_size read_committed t t1 p fs o m gone f
          (All-right (λ q. p ≢ q) ps fs d.0) in
      let (f2, count2) =
        free_chain-Listed roomy hops ps (drop (capacity page_size) value) t1 t' (p ∷ fs) o1
          (omega (arith, m, same_count))
          (subst (λ v. Held roomy v ps (drop (capacity page_size) value)) after
            (Held-released roomy t p _ ps (drop (capacity page_size) value)
              (All-left (λ q. p ≢ q) ps fs d.0) c.4))
          f1 (Distinct-shift p ps fs d.0 d.1)
          ((λ i.
              free_chain WriteTxn (txn_pages page_size read_committed) page_size hops (sym next i)
                t1)
            ∙ more) in
      (f2, count2 ∙ same_count)
    where
      image : Bytes
      image = overflow_image page_size (first_of ps) (take (capacity page_size) value)

      next : get_u64 image ≡ first_of ps
      next =
          next_back page_size (first_of ps) (take (capacity page_size) value) (omega (arith, roomy))
            (omega (
              arith,
              part_size WriteTxn (txn_pages page_size read_committed)
                  (txn-PageLaws page_size read_committed) page_size roomy value,
            ))
            c.2

      step :
          free_chain WriteTxn (txn_pages page_size read_committed) page_size (suc hops) p t
          ≡ and_then (free_page page_size read_committed p t) (λ u s'.
            free_chain WriteTxn
              (txn_pages page_size read_committed)
              page_size
              hops
              (get_u64 image)
              s')
      step =
          free_chain-step WriteTxn (txn_pages page_size read_committed) page_size hops p t image c.0
            (reads page_size read_committed t p image c.3)

  -- Overflow pages are given back: when a value is written to overflow pages and these are released, both
  -- without an error, the pages of the free list are then those that were on it before and those by which the
  -- file grew. The transaction is not finished, no page is on its free list twice, a page has room for a part of
  -- the value, and the file has a page and stays below 2^64 pages.
  pub free_overflow-write_overflow :
      (value : Bytes) (t t' t'' : WriteTxn) (first : ℕ) (fs : List ℕ)
      → 13 ≤ page_size
      → t.finished ≡ false
      → 0 < t.header.page_count
      → t.header.page_count + (length value + capacity page_size - 1) / capacity page_size < 2 ^ 64
      → Listed page_size read_committed t fs
      → Distinct fs
      → write_overflow WriteTxn (txn_pages page_size read_committed) page_size value t
        ≡ (ok first, t')
      → free_overflow WriteTxn (txn_pages page_size read_committed) page_size first t'
        ≡ (ok tt, t'')
      → (free : List ℕ) × (k : ℕ) × Listed page_size read_committed t'' free
        × Perm free (fs ++ upto t.header.page_count k)
        × (t''.header.page_count ≡ t.header.page_count + k)
  unfolding write_overflow free_overflow txn-PageLaws
  free_overflow-write_overflow value t t' t'' first fs roomy o some_page bounded f d e g =
      let (ps, t1, alloc, more) =
        and_then-ok (allocate_all WriteTxn (txn_pages page_size read_committed) page_size n t)
          (λ ps s1.
            and_then
              (write_chain WriteTxn (txn_pages page_size read_committed) page_size ps value s1)
              (λ u s2. (ok (first_of ps), s2)))
          first t' e in
      let (u, t2, wrote, done) =
        and_then-ok
          (write_chain WriteTxn (txn_pages page_size read_committed) page_size ps value t1)
          (λ u s2. (ok (first_of ps), s2)) first t' more in
      let (rest, k, split, f1, count1, m1, o1) =
        allocate_all-Listed page_size read_committed n t t1 ps fs (some_page, bounded) f d alloc in
      let (len, chain, distinct, free) =
        write_overflow-Chain WriteTxn (txn_pages page_size read_committed)
          (txn-PageLaws page_size read_committed) page_size roomy value t t1 t2 ps
          (some_page, bounded) alloc wrote in
      let apart : Distinct (ps ++ rest) = subst Distinct (sym split) (
        Distinct-append fs t.header.page_count k d
          (IsFree-within page_size read_committed t t.header.freelist_head fs o f)) in
      let (f2, count2, o2) =
        write_chain-Listed page_size read_committed ps value t1 t2 rest f1 apart wrote in
      let (f3, count3) =
        free_chain-Listed roomy 16_777_216 ps value t2 t'' rest (o2 ∙ o1 ∙ o)
          (omega (arith, count2, m1)) chain f2 apart
          ((λ i.
              free_chain WriteTxn (txn_pages page_size read_committed) page_size 16_777_216
                (value_or 0 (done i).0) (done i).1)
            ∙ g) in
      (
        reverse_aux ps rest,
        k,
        f3,
        subst (Perm (reverse_aux ps rest)) split ∣ Permᴰ.reverse_aux ps rest ∣₁,
        count3 ∙ count2 ∙ count1,
      )
    where
      n : ℕ
      n = (length value + capacity page_size - 1) / capacity page_size
