-- ===== src/Engine/WriteTxn/Laws.antt =====
-- What the B-tree relies on, for the pages of a write transaction of engine/src/engine/db.cpp, and the values
-- on overflow pages that it therefore reads back.
use archivum.Base.{
  ℕ, suc, ◌+◌, ◌-◌, ◌/◌, ◌^◌, ◌≤◌, ◌<◌, ◌≡◌, ◌≢◌, ◌==◌, sym, ap, ◌∙◌, subst, arith, ==_iff, Bool,
  Bool-cases, true, false, false≢true, inl, inr, none, Bytes, length,
}
use archivum.Status.{Result, ok}
use archivum.Engine.BTree.Pages.{PageLaws}
use archivum.Engine.WriteTxn.{WriteTxn, with_page, grown, without_head, next_free, txn_pages}
use archivum.Engine.BTree.Overflow.{capacity, write_overflow, read_overflow}
use archivum.Engine.BTree.Overflow.RoundTrip.{read_overflow-written}
use archivum.Engine.WriteTxn.View.{
  view, taken, Room, Allocation, grows, reuses, zeros-taken, reads, written, listed_free,
  listed_within, view-grown_self, view-reused_self, view-grown_other, view-reused_other,
  view-with_page_self, view-with_page_other, allocate_page-Allocation,
}

module _ (page_size : ℕ) (read_committed : ℕ → Result Bytes) where
  abbrev in_use : WriteTxn → ℕ → Bool
  in_use t p = taken (view t p)

  pub Room-allocate_page :
      (n : ℕ) (t t' : WriteTxn) (p : ℕ)
      → Room (suc n) t
      → Allocation page_size read_committed t p t'
      → (p ≢ 0) × (p < 2 ^ 64) × Room n t'
  unfolding with_page grown without_head next_free
  Room-allocate_page n t t' p m (grows opened full same after) = (
    (λ z. absurd (omega (arith, z, same, m))),
    omega (arith, same, m),
    subst (Room n) after (omega (arith, m), omega (arith, m)),
  )
  Room-allocate_page n t t' p m (reuses next opened listed found same after) = (
    (λ z. listed (sym same ∙ z)),
    omega (
      arith,
      same,
      m,
      listed_within page_size read_committed t t.header.freelist_head next opened found,
    ),
    subst (Room n) after (m.0, omega (arith, m)),
  )

  pub fresh-allocate_page :
      (n : ℕ) (t t' : WriteTxn) (p : ℕ)
      → Room (suc n) t
      → Allocation page_size read_committed t p t'
      → (in_use t p ≡ false) × (in_use t' p ≡ true)
  unfolding next_free
  fresh-allocate_page n t t' p m (grows opened full same after) = (
    ap (in_use t) same ∙ ap taken (outside t t.header.page_count opened),
    ap (in_use t') same
        ∙ subst (λ u. in_use u t.header.page_count ≡ true) after
            (ap taken (view-grown_self page_size read_committed n t opened m)
              ∙ zeros-taken page_size read_committed),
  )
    where
      outside : (t : WriteTxn) (q : ℕ) → t.finished ≡ false → view t t.header.page_count ≡ none
      outside t q e = ground arith
  fresh-allocate_page n t t' p m (reuses next opened listed found same after) = (
    ap (in_use t) same ∙ listed_free page_size read_committed t t.header.freelist_head next found,
    ap (in_use t') same
        ∙ subst (λ u. in_use u t.header.freelist_head ≡ true) after
            (ap taken (
                view-reused_self page_size read_committed t next opened (
                  listed_within page_size read_committed t t.header.freelist_head next opened
                    found))
              ∙ zeros-taken page_size read_committed),
  )

  pub others-allocate_page :
      (n : ℕ) (t t' : WriteTxn) (p q : ℕ)
      → Room (suc n) t
      → Allocation page_size read_committed t p t'
      → q ≢ p
      → view t' q ≡ view t q
  others-allocate_page n t t' p q m (grows opened full same after) other =
      ap (λ u. view u q) (sym after)
      ∙ view-grown_other page_size read_committed n t q m (λ e. other (e ∙ sym same))
  others-allocate_page n t t' p q m (reuses next opened listed found same after) other =
      ap (λ u. view u q) (sym after)
      ∙ view-reused_other page_size read_committed t next q (λ e. other (e ∙ sym same))

  -- The pages of a write transaction keep the laws.
  unfoldable pub txn-PageLaws : PageLaws WriteTxn (txn_pages page_size read_committed)
  unfolding txn_pages
  txn-PageLaws = record {
    view = view;
    in_use = in_use;
    room = Room;
    reads = reads page_size read_committed;
    writes = λ t t' p bs e.
        let (opened, inside, after) = written page_size read_committed t t' p bs e in
        ap (λ u. view u p) (sym after)
        ∙ view-with_page_self page_size read_committed t p bs opened inside;
    keeps = λ t t' p q bs e other.
        let (opened, inside, after) = written page_size read_committed t t' p bs e in
        ap (λ u. view u q) (sym after)
        ∙ view-with_page_other page_size read_committed t p q bs other;
    allocated = λ n t t' p m e.
        Room-allocate_page n t t' p m (allocate_page-Allocation page_size read_committed t t' p e);
    fresh = λ n t t' p m e.
        fresh-allocate_page n t t' p m (allocate_page-Allocation page_size read_committed t t' p e);
    stays = λ n t t' p q m e used. elim (Bool-cases (q == p)) [
      | inl same ↦
          ap (in_use t') ((==_iff q p).0 same)
          ∙ (fresh-allocate_page n t t' p m
              (allocate_page-Allocation page_size read_committed t t' p e)).1
      | inr other ↦
          ap taken (
            others-allocate_page n t t' p q m
              (allocate_page-Allocation page_size read_committed t t' p e)
              (λ h. false≢true (sym other ∙ (==_iff q p).1 h)))
          ∙ used
    ];
  }

  -- A value that was written to overflow pages of the transaction reads back from the first of them as it was.
  -- The value is shorter than 2^32 bytes, a page has room for a part of it, and the file has a page and stays
  -- below 2^64 pages.
  pub read_overflow-write_overflow :
      (value : Bytes) (t t' : WriteTxn) (first : ℕ)
      → 13 ≤ page_size
      → length value < 2 ^ 32
      → 0 < t.header.page_count
      → t.header.page_count + (length value + capacity page_size - 1) / capacity page_size < 2 ^ 64
      → write_overflow WriteTxn (txn_pages page_size read_committed) page_size value t
        ≡ (ok first, t')
      → read_overflow WriteTxn
          (txn_pages page_size read_committed)
          page_size
          first
          (length value)
          t'
        ≡ ok value
  unfolding txn-PageLaws
  read_overflow-write_overflow value t t' first roomy short some_page bounded e =
      read_overflow-written WriteTxn (txn_pages page_size read_committed) txn-PageLaws page_size
        roomy value t t' first short (some_page, bounded) e
