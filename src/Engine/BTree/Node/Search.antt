-- ===== src/Engine/BTree/Node/Search.antt =====
-- The binary searches of a node of engine/src/engine/btree.cpp.
use archivum.Base.{
  ℕ, zero, suc, ◌+◌, ◌-◌, ◌/◌, ◌<◌, ◌≤◌, ◌≡◌, sym, ap, ◌∙◌, arith, subst, ltb, leb, ◌&&◌, Bool,
  true, false, false≢true, Bool-cases, and-split, ◌≢◌, inl, inr, Bytes,
}
use Prim.Native.Nat.{Ordering}
use archivum.Engine.Types.{compare_bytes}
use archivum.Engine.Types.Order.{compare_bytes_refl, compare_bytes-eq, compare_bytes_trans}
use archivum.Engine.BTree.Node.{search, count, key, is_less, is_equal, lower_bound}

-- The least index in the range at which the test fails.
pub record IsFirst (below : ℕ → Bool) (lo hi r : ℕ) : Type 0 where
  pub from : lo ≤ r
  pub to : r ≤ hi
  pub before : (i : ℕ) → lo ≤ i → i < r → below i ≡ true
  pub behind : (i : ℕ) → r ≤ i → i < hi → below i ≡ false

-- A test that once it fails goes on to fail.
abbrev pub Falls : (ℕ → Bool) → ℕ → Type 0
Falls below hi = (i j : ℕ) → i ≤ j → j < hi → below j ≡ true → below i ≡ true

half_from : (lo hi : ℕ) → lo < hi → lo ≤ (lo + hi) / 2
half_from lo hi h = omega arith

half_to : (lo hi : ℕ) → lo < hi → (lo + hi) / 2 < hi
half_to lo hi h = omega arith

search-done :
    (below : ℕ → Bool) (rounds lo hi : ℕ) → ltb lo hi ≡ false → search below (suc rounds) lo hi ≡ lo
unfolding search
search-done below rounds lo hi e = rw e

search-upper :
    (below : ℕ → Bool) (rounds lo hi : ℕ)
    → ltb lo hi ≡ true
    → below ((lo + hi) / 2) ≡ true
    → search below (suc rounds) lo hi ≡ search below rounds ((lo + hi) / 2 + 1) hi
unfolding search
search-upper below rounds lo hi e b = rw (e, b)

search-lower :
    (below : ℕ → Bool) (rounds lo hi : ℕ)
    → ltb lo hi ≡ true
    → below ((lo + hi) / 2) ≡ false
    → search below (suc rounds) lo hi ≡ search below rounds lo ((lo + hi) / 2)
unfolding search
search-lower below rounds lo hi e b = rw (e, b)

-- What is known of one half and of its end is known of the range.
widen_up :
    (below : ℕ → Bool) (lo hi r : ℕ)
    → lo < hi
    → Falls below hi
    → below ((lo + hi) / 2) ≡ true
    → IsFirst below ((lo + hi) / 2 + 1) hi r
    → IsFirst below lo hi r
widen_up below lo hi r h falls b f = record {
  from = omega (arith, f.from, half_from lo hi h);
  to = f.to;
  before = λ i a c. elim (Bool-cases (leb i ((lo + hi) / 2))) [
    | inl small ↦ falls i ((lo + hi) / 2) (ground arith) (half_to lo hi h) b
    | inr large ↦ f.before i (ground arith) c
  ];
  behind = f.behind;
}

widen_down :
    (below : ℕ → Bool) (lo hi r : ℕ)
    → lo < hi
    → Falls below hi
    → below ((lo + hi) / 2) ≡ false
    → IsFirst below lo ((lo + hi) / 2) r
    → IsFirst below lo hi r
widen_down below lo hi r h falls b f = record {
  from = f.from;
  to = omega (arith, f.to, half_to lo hi h);
  before = f.before;
  behind = λ i a c. elim (Bool-cases (below i)) [
    | inr e ↦ e
    | inl e ↦ elim (Bool-cases (ltb i ((lo + hi) / 2))) [
      | inl small ↦ f.behind i a (ground arith)
      | inr large ↦ absurd (false≢true (sym b ∙ falls ((lo + hi) / 2) i (ground arith) c e))
    ]
  ];
}

pub search-IsFirst :
    (below : ℕ → Bool) (rounds lo hi : ℕ)
    → lo ≤ hi
    → hi - lo ≤ rounds
    → Falls below hi
    → IsFirst below lo hi (search below rounds lo hi)
unfolding search
search-IsFirst below zero lo hi h enough falls = record {
  from = omega arith;
  to = h;
  before = λ i a b. absurd (omega arith);
  behind = λ i a b. absurd (omega arith);
}
search-IsFirst below (suc rounds) lo hi h enough falls = elim (Bool-cases (ltb lo hi)) [
  | inr done ↦ subst (IsFirst below lo hi) (sym (search-done below rounds lo hi done)) (record {
    from = omega arith;
    to = h;
    before = λ i a b. absurd (omega arith);
    behind = λ i a b. absurd (ground arith);
  })
  | inl more ↦ elim (Bool-cases (below ((lo + hi) / 2))) [
    | inl yes_below ↦
        subst (IsFirst below lo hi) (sym (search-upper below rounds lo hi more yes_below)) (
          widen_up below lo hi _ (less more) falls yes_below (
            search-IsFirst below rounds ((lo + hi) / 2 + 1) hi
              (omega (arith, half_to lo hi (less more)))
              (omega (arith, half_from lo hi (less more))) falls))
    | inr not_below ↦
        subst (IsFirst below lo hi) (sym (search-lower below rounds lo hi more not_below)) (
          widen_down below lo hi _ (less more) falls not_below (
            search-IsFirst below rounds lo ((lo + hi) / 2) (half_from lo hi (less more))
              (omega (arith, half_to lo hi (less more)))
              (λ i j a b e. falls i j a (omega (arith, b, half_to lo hi (less more))) e)))
  ]
]
  where
    less : ltb lo hi ≡ true → lo < hi
    less e = ground arith

-- The keys of the node ascend.
abbrev pub KeysAscend : Bytes → Type 0
KeysAscend p = (i j : ℕ) → i < j → j < count p → compare_bytes (key p i) (key p j) ≡ Ordering.lt

-- What `lower_bound` promises: every key in front of the slot is less than the one sought, none from the slot
-- on is, and the match is exact just when the node has the key.
pub record IsLowerBound (p k : Bytes) (r : ℕ × Bool) : Type 0 where
  pub within : r.0 ≤ count p
  pub less : (i : ℕ) → i < r.0 → compare_bytes (key p i) k ≡ Ordering.lt
  pub not_less : (i : ℕ) → r.0 ≤ i → i < count p → compare_bytes (key p i) k ≢ Ordering.lt
  pub exact : r.1 ≡ true → (r.0 < count p) × (key p r.0 ≡ k)
  pub found : (i : ℕ) → i < count p → key p i ≡ k → (r.1 ≡ true) × (i ≡ r.0)

pub is_less→lt : (o : Ordering) → is_less o ≡ true → o ≡ Ordering.lt
is_less→lt o h = ground arith

not_is_less : (o : Ordering) → is_less o ≡ false → o ≢ Ordering.lt
not_is_less o h e = ground arith

pub is_equal→eq : (o : Ordering) → is_equal o ≡ true → o ≡ Ordering.eq
is_equal→eq o h = ground arith

pub same_index : (i j : ℕ) → i ≤ j → ltb i j ≡ false → i ≡ j
same_index i j h e = ground arith

hit : (i n : ℕ) (b : Bool) → i < n → b ≡ true → (ltb i n && b) ≡ true
hit i n b h e = ground arith

-- The slot of a key that is there.
first_place :
    (p k : Bytes) (i r : ℕ)
    → KeysAscend p
    → i < count p
    → key p i ≡ k
    → r ≤ count p
    → (i < r → compare_bytes (key p i) k ≡ Ordering.lt)
    → (r < count p → compare_bytes (key p r) k ≢ Ordering.lt)
    → i ≡ r
first_place p k i r asc l e to less not_less = elim (Bool-cases (ltb i r)) [
  | inl before ↦
      absurd
        (differ (sym (less (ground arith)) ∙ ap (λ x. compare_bytes x k) e ∙ compare_bytes_refl k))
  | inr from ↦ elim (Bool-cases (ltb r i)) [
    | inl behind ↦
        absurd (
          not_less (ground arith) (ap (compare_bytes (key p r)) (sym e) ∙ asc r i (ground arith) l))
    | inr to_ ↦ ground arith
  ]
]
  where
    differ : Ordering.lt ≢ Ordering.eq
    differ h = ground arith

-- The binary search of a node whose keys ascend gives the slot of the first key that is not less than the
-- one sought, and says whether that is the key.
pub lower_bound-IsLowerBound : (p k : Bytes) → KeysAscend p → IsLowerBound p k (lower_bound p k)
unfolding lower_bound
lower_bound-IsLowerBound p k asc = record {
  within = f.to;
  less = λ i h. is_less→lt _ (f.before i (omega arith) h);
  not_less = λ i h l. not_is_less _ (f.behind i h l);
  exact = λ e. let (l, q) = and-split _ _ e in (ltb→lt l, compare_bytes-eq _ _ (is_equal→eq _ q));
  found = λ i l e. let s = place i l e in (exact_at i l e s, s);
}
  where
    below : ℕ → Bool
    below i = is_less (compare_bytes (key p i) k)

    falls : Falls below (count p)
    falls i j h l e = elim (Bool-cases (ltb i j)) [
      | inl less ↦
          ap is_less
            (compare_bytes_trans (key p i) (key p j) k (asc i j (ground arith) l) (is_less→lt _ e))
      | inr same ↦ ap below (same_index i j h same) ∙ e
    ]

    f : IsFirst below 0 (count p) (search below (count p) 0 (count p))
    f = search-IsFirst below (count p) 0 (count p) (omega arith) (omega arith) falls

    place : (i : ℕ) → i < count p → key p i ≡ k → i ≡ search below (count p) 0 (count p)
    place i l e =
        first_place p k i (search below (count p) 0 (count p)) asc l e f.to
          (λ h. is_less→lt _ (f.before i (omega arith) h))
          (λ h. not_is_less _ (f.behind _ (omega arith) h))

    exact_at :
        (i : ℕ)
        → i < count p
        → key p i ≡ k
        → i ≡ search below (count p) 0 (count p)
        → (lower_bound p k).1 ≡ true
    exact_at i l e s =
        ap (λ r. ltb r (count p) && is_equal (compare_bytes (key p r) k)) (sym s)
        ∙ hit i (count p) _ l
            (ap (λ x. is_equal (compare_bytes x k)) e ∙ ap is_equal (compare_bytes_refl k))

    ltb→lt :
        ltb (search below (count p) 0 (count p)) (count p) ≡ true
        → search below (count p) 0 (count p) < count p
    ltb→lt e = ground arith
