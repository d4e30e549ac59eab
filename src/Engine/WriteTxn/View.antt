-- ===== src/Engine/WriteTxn/View.antt =====
-- The pages of a write transaction of engine/src/engine/db.cpp as they are after each of its operations.
use archivum.Base.{
  ℕ, zero, suc, ◌+◌, ◌^◌, ◌<◌, ◌≡◌, ◌≢◌, ◌==◌, refl, sym, ap, ◌∙◌, arith, leb, ==_iff, ltb, ◌&&◌,
  if◌then◌else◌, not, Bool, Bool-cases, true, false, false≢true, inl, inr, Option, none, some,
  Bytes, length, replicate,
}
use archivum.Status.{Result, ok, err, invalid_argument, corrupt, is_ok, value_or, require, ◌>>=◌}
use archivum.Engine.PageFormat.{decode_free_page, bytes_eq}
use archivum.Engine.BTree.Pages.{and_then, and_then-ok}
use archivum.Engine.WriteTxn.{
  WriteTxn, with_page, grown, without_head, read_page, write_page, next_free, allocate_page,
}

-- What the transaction wrote to a page that is in the file.
abbrev pub view : WriteTxn → ℕ → Option Bytes
view t p = if t.finished then none else if leb t.header.page_count p then none else t.dirty p

-- A page that was written and does not say that it is free.
abbrev pub taken : Option Bytes → Bool
taken none = false
taken (some bs) = not (is_ok (decode_free_page bs))

-- The file can grow by the pages.
abbrev pub Room : ℕ → WriteTxn → Type 0
Room n t = (0 < t.header.page_count) × (t.header.page_count + n < 2 ^ 64)

module _ (page_size : ℕ) (read_committed : ℕ → Result Bytes) where
  abbrev pub zeros : Bytes
  zeros = replicate page_size 0

  -- A test that begins with another byte fails.
  refused :
      (next : ℕ) (long : Bool) → is_ok (require (long && false) corrupt >>= λ u. ok next) ≡ false
  refused next true = refl
  refused next false = refl

  pub zeros-taken : taken (some zeros) ≡ true
  unfolding decode_free_page bytes_eq
  zeros-taken = go page_size
    where
      go : (n : ℕ) → taken (some (replicate n 0)) ≡ true
      go zero = refl
      go (suc n) = ap not (refused _ (not (ltb (suc (length (replicate n 0))) 16)))

  pub reads :
      (t : WriteTxn) (p : ℕ) (bs : Bytes)
      → view t p ≡ some bs
      → read_page page_size read_committed p t ≡ ok bs
  unfolding read_page
  reads t p bs h = ground (arith, h)

  pub written :
      (t t' : WriteTxn) (p : ℕ) (bs : Bytes)
      → write_page page_size read_committed p bs t ≡ (ok tt, t')
      → (t.finished ≡ false) × (leb t.header.page_count p ≡ false) × (with_page p bs t ≡ t')
  unfolding write_page
  written t t' p bs h = ground arith

  abbrev pub in_use : WriteTxn → ℕ → Bool
  in_use t p = taken (view t p)

  -- An allocation grows the file or takes the head of the free list.
  pub data Allocation (t : WriteTxn) (p : ℕ) (t' : WriteTxn) : Type 0 where
    grows :
        t.finished ≡ false
        → t.header.freelist_head ≡ 0
        → p ≡ t.header.page_count
        → with_page t.header.page_count zeros (grown t) ≡ t'
        → Allocation t p t'
    reuses :
        (next : ℕ)
        → t.finished ≡ false
        → t.header.freelist_head ≢ 0
        → next_free page_size read_committed t ≡ ok next
        → p ≡ t.header.freelist_head
        → with_page t.header.freelist_head zeros (without_head next t) ≡ t'
        → Allocation t p t'

  pair_value :
      {A : Type 0} {a b : A} {t t' : WriteTxn}
      → Path (Result A × WriteTxn) (ok a, t) (ok b, t')
      → (a ≡ b) × (t ≡ t')
  pair_value {a = a} e = (ap (λ r. value_or a r.0) e, ap (λ r. r.1) e)

  pub allocate_page-Allocation :
      (t t' : WriteTxn) (p : ℕ)
      → allocate_page page_size read_committed t ≡ (ok p, t')
      → Allocation t p t'
  unfolding allocate_page
  allocate_page-Allocation t t' p h = elim (Bool-cases t.finished) [
    | inl over ↦ absurd (false≢true (ap (λ r. is_ok r.0) (sym (ended over) ∙ h)))
    | inr opened ↦ elim (Bool-cases (t.header.freelist_head == 0)) [
      | inl none_free ↦
          let (same, after) = pair_value (sym (larger opened none_free) ∙ h) in
          grows opened ((==_iff t.header.freelist_head 0).0 none_free) (sym same) after
      | inr some_free ↦
          let (next, t1, found, done) = and_then-ok _ _ p t' (sym (smaller opened some_free) ∙ h) in
          let (same, after) = pair_value done in
          reuses next opened (λ z. absurd (ground arith)) (ap (λ r. r.0) found) (sym same) after
    ]
  ]
    where
      ended :
          t.finished ≡ true → allocate_page page_size read_committed t ≡ (err invalid_argument, t)
      ended e = rw e

      larger :
          t.finished ≡ false
          → (t.header.freelist_head == 0) ≡ true
          → allocate_page page_size read_committed t
            ≡ (ok t.header.page_count, with_page t.header.page_count zeros (grown t))
      larger e f = rw (e, f)

      smaller :
          t.finished ≡ false
          → (t.header.freelist_head == 0) ≡ false
          → allocate_page page_size read_committed t
            ≡ and_then
                (next_free page_size read_committed t, t)
                (λ next t'. (
                  ok t.header.freelist_head,
                  with_page t.header.freelist_head zeros (without_head next t),
                ))
      smaller e f = rw (e, f)

  -- A page that is free to take is none of those in use.
  pub listed_free :
      (t : WriteTxn) (p next : ℕ)
      → (read_page page_size read_committed p t >>= decode_free_page) ≡ ok next
      → taken (view t p) ≡ false
  listed_free t p next h = by_view (view t p) refl
    where
      by_view : (v : Option Bytes) → view t p ≡ v → taken v ≡ false
      by_view none e = refl
      by_view (some bs) e =
          ap (λ r. not (is_ok r)) (sym (ap (λ r. r >>= decode_free_page) (reads t p bs e)) ∙ h)

  -- A page that the free list gives is in the file.
  pub listed_within :
      (t : WriteTxn) (p next : ℕ)
      → t.finished ≡ false
      → (read_page page_size read_committed p t >>= decode_free_page) ≡ ok next
      → p < t.header.page_count
  unfolding read_page
  listed_within t p next opened h = elim (Bool-cases (leb t.header.page_count p)) [
    | inr inside ↦ ground arith
    | inl outside ↦ absurd (false≢true (ap is_ok (sym (beyond outside) ∙ h)))
  ]
    where
      beyond :
          leb t.header.page_count p ≡ true
          → (read_page page_size read_committed p t >>= decode_free_page) ≡ err invalid_argument
      beyond e = rw (opened, e)

  pub view-grown_self :
      (n : ℕ) (t : WriteTxn)
      → t.finished ≡ false
      → Room (suc n) t
      → view (with_page t.header.page_count zeros (grown t)) t.header.page_count ≡ some zeros
  unfolding with_page grown
  view-grown_self n t opened m = ground (arith, m)

  pub view-reused_self :
      (t : WriteTxn) (next : ℕ)
      → t.finished ≡ false
      → t.header.freelist_head < t.header.page_count
      → view (with_page t.header.freelist_head zeros (without_head next t)) t.header.freelist_head
        ≡ some zeros
  unfolding with_page without_head
  view-reused_self t next opened inside = ground arith

  pub view-grown_other :
      (n : ℕ) (t : WriteTxn) (q : ℕ)
      → Room (suc n) t
      → q ≢ t.header.page_count
      → view (with_page t.header.page_count zeros (grown t)) q ≡ view t q
  unfolding with_page grown
  view-grown_other n t q m other = ground (arith, m)

  pub view-reused_other :
      (t : WriteTxn) (next q : ℕ)
      → q ≢ t.header.freelist_head
      → view (with_page t.header.freelist_head zeros (without_head next t)) q ≡ view t q
  unfolding with_page without_head
  view-reused_other t next q other = ground arith

  pub view-with_page_self :
      (t : WriteTxn) (p : ℕ) (bs : Bytes)
      → t.finished ≡ false
      → leb t.header.page_count p ≡ false
      → view (with_page p bs t) p ≡ some bs
  unfolding with_page
  view-with_page_self t p bs opened inside = ground arith

  pub view-with_page_other :
      (t : WriteTxn) (p q : ℕ) (bs : Bytes) → q ≢ p → view (with_page p bs t) q ≡ view t q
  unfolding with_page
  view-with_page_other t p q bs other = ground arith
