-- ===== src/Engine/WriteTxn/PageLists.antt =====
-- Lists of page numbers, for the free list of engine/src/engine/db.cpp.
use archivum.Base.{
  ℕ, zero, suc, ◌+◌, ◌<◌, ◌≡◌, ◌≢◌, sym, ap, ◌∙◌, arith, List, [], ◌∷◌, ◌++◌, All, All-append,
}
use archivum.Engine.BTree.Overflow.RoundTrip.{Distinct}

-- The pages from a number on.
abbrev pub upto : ℕ → ℕ → List ℕ
upto n zero = []
upto n (suc k) = n ∷ upto (n + 1) k

pub upto-append : (n k m : ℕ) → upto n k ++ upto (n + k) m ≡ upto n (k + m)
upto-append n zero m =
    ap (λ x. upto x m) {x = n + zero} {y = n} (omega arith)
    ∙ ap (upto n) {x = m} {y = zero + m} (omega arith)
upto-append n (suc k) m =
    ap (λ x. n ∷ (upto (n + 1) k ++ upto x m)) {x = n + suc k} {y = n + 1 + k} (omega arith)
    ∙ ap (◌∷◌ n) (upto-append (n + 1) k m)
    ∙ ap (upto n) {x = suc (k + m)} {y = suc k + m} (omega arith)

upto-above : (x n k : ℕ) → x < n → All (λ y. x ≢ y) (upto n k)
upto-above x n zero h = tt
upto-above x n (suc k) h =
    ((λ e. absurd (omega (arith, e, h))), upto-above x (n + 1) k (omega (arith, h)))

upto-Distinct : (n k : ℕ) → Distinct (upto n k)
upto-Distinct n zero = tt
upto-Distinct n (suc k) = (upto-above n (n + 1) k (omega arith), upto-Distinct (n + 1) k)

pub All-right : (P : ℕ → Type 0) (xs ys : List ℕ) → All P (xs ++ ys) → All P ys
All-right P [] ys a = a
All-right P (x ∷ xs) ys a = All-right P xs ys a.1

pub All-left : (P : ℕ → Type 0) (xs ys : List ℕ) → All P (xs ++ ys) → All P xs
All-left P [] ys a = tt
All-left P (x ∷ xs) ys a = (a.0, All-left P xs ys a.1)

-- Pages below a number and the pages from it on.
pub Distinct-append :
    (xs : List ℕ) (n k : ℕ) → Distinct xs → All (λ x. x < n) xs → Distinct (xs ++ upto n k)
Distinct-append [] n k d a = upto-Distinct n k
Distinct-append (x ∷ xs) n k d a = (
  All-append (λ y. x ≢ y) xs (upto n k) d.0 (upto-above x n k a.0),
  Distinct-append xs n k d.1 a.1,
)

-- The first of the pages goes to the front of the others.
pub Distinct-shift :
    (p : ℕ) (ps fs : List ℕ)
    → All (λ q. p ≢ q) (ps ++ fs)
    → Distinct (ps ++ fs)
    → Distinct (ps ++ p ∷ fs)
Distinct-shift p [] fs a d = (a, d)
Distinct-shift p (q ∷ ps) fs a d = (
  All-append (λ y. q ≢ y) ps (p ∷ fs) (All-left (λ y. q ≢ y) ps fs d.0)
      ((λ e. a.0 (sym e)), All-right (λ y. q ≢ y) ps fs d.0),
  Distinct-shift p ps fs a.1 d.1,
)
