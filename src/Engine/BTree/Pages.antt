-- ===== src/Engine/BTree/Pages.antt =====
-- `PageReader` and `PageWriter` of engine/include/archivum/engine/btree.h: the pages of a transaction as the B-tree
-- uses them, over a state that only the transaction knows.
use archivum.Base.{
  ℕ, zero, suc, arith, ◌==◌, ◌<◌, ◌^◌, ◌≡◌, ◌≢◌, refl, ap, Bool, true, false, false≢true, Option,
  some, Bytes,
}
use archivum.Status.{Result, Status, ok, err, is_ok}

pub record Pages (S : Type 0) : Type 0 where
  pub read_page : ℕ → S → Result Bytes
  pub write_page : ℕ → Bytes → S → Status × S
  pub allocate_page : S → Result ℕ × S
  pub free_page : ℕ → S → Status × S

-- An operation that goes on with the result of another, or returns its error.
abbrev pub and_then : {S A B : Type 0} → Result A × S → (A → S → Result B × S) → Result B × S
and_then (ok a, s) f = f a s
and_then (err e, s) f = (err e, s)

-- What the B-tree relies on: a page reads as it was written last, a write leaves the other pages alone, and
-- with room for a page an allocated one is new and not page 0.
pub record PageLaws (S : Type 0) (pages : Pages S) : Type 1 where
  pub view : S → ℕ → Option Bytes
  pub in_use : S → ℕ → Bool
  pub room : ℕ → S → Type 0
  pub reads : (s : S) (p : ℕ) (bs : Bytes) → view s p ≡ some bs → pages.read_page p s ≡ ok bs
  pub writes :
      (s s' : S) (p : ℕ) (bs : Bytes) → pages.write_page p bs s ≡ (ok tt, s') → view s' p ≡ some bs
  pub keeps :
      (s s' : S) (p q : ℕ) (bs : Bytes)
      → pages.write_page p bs s ≡ (ok tt, s')
      → q ≢ p
      → view s' q ≡ view s q
  pub allocated :
      (n : ℕ) (s s' : S) (p : ℕ)
      → room (suc n) s
      → pages.allocate_page s ≡ (ok p, s')
      → (p ≢ 0) × (p < 2 ^ 64) × room n s'
  pub fresh :
      (n : ℕ) (s s' : S) (p : ℕ)
      → room (suc n) s
      → pages.allocate_page s ≡ (ok p, s')
      → (in_use s p ≡ false) × (in_use s' p ≡ true)
  pub stays :
      (n : ℕ) (s s' : S) (p q : ℕ)
      → room (suc n) s
      → pages.allocate_page s ≡ (ok p, s')
      → in_use s q ≡ true
      → in_use s' q ≡ true

-- What an operation that went on and succeeded has been through.
pub and_then-ok :
    {S A B : Type 0} (r : Result A × S) (f : A → S → Result B × S) (b : B) (s : S)
    → and_then r f ≡ (ok b, s)
    → (a : A) × (t : S) × (r ≡ (ok a, t)) × (f a t ≡ (ok b, s))
and_then-ok (ok a, t) f b s e = (a, t, refl, e)
and_then-ok (err c, t) f b s e = absurd (false≢true (ap (λ r. is_ok r.0) e))

-- The test of a page number that is not 0.
pub is_zero-false : (p : ℕ) → p ≢ 0 → (p == 0) ≡ false
is_zero-false zero g = absurd (g refl)
is_zero-false (suc p) g = ground arith
