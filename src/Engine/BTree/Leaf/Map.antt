-- ===== src/Engine/BTree/Leaf/Map.antt =====
-- A leaf of engine/src/engine/btree.cpp as a map: what `get`, `put` and `erase` do to it, against the list of its
-- entries.
use Prim.Native.Nat.{Ordering, bit_and}
use mathlib.Core.Path.{ap₂}
use archivum.Base.{
  ℕ, ◌+◌, ◌-◌, ◌<◌, ◌≤◌, ◌≡◌, ◌≢◌, ◌==◌, not, refl, sym, ap, ◌∙◌, subst, arith, true, false,
  false≢true, Bool-cases, inl, inr, none, some, List, [], ◌∷◌, ◌++◌, Bytes, All, All-append, ◌⊎◌,
  take-append-drop, length, take, drop, take_exact, drop_exact, length-take, length-append,
}
use archivum.LittleEndian.{get_from, get_u32, get_u64}
use archivum.Engine.Types.{compare_bytes}
use archivum.Engine.Types.Order.{compare_bytes_refl, compare_bytes-eq, compare_bytes_flip}
use archivum.Engine.BTree.Node.{
  get_u16, get_u8, leaf_type, node_type, is_leaf, count, cell, cell_size, size_of, cell_key, key,
  overflowed, value_len, inline_value, overflow_page, is_equal, lower_bound, remove_cell,
}
use archivum.Engine.BTree.Node.Memory.{peek-take}
use archivum.Engine.BTree.Node.Shape.{cell_bytes, cells, IsCell, IsNode}
use archivum.Engine.BTree.Node.Search.{KeysAscend, IsLowerBound, lower_bound-IsLowerBound}
use archivum.Engine.BTree.Node.Remove.{remove_cell-cells}
use archivum.Engine.BTree.Leaf.{
  usable_bytes, total_bytes, without_replaced, has_key, Stored, stored_of, leaf_get, leaf_put,
  leaf_erase,
}
use archivum.Engine.BTree.Leaf.Fill.{length-cells}
use archivum.Engine.BTree.Leaf.Place.{with_cell, place_cell-cells}
use archivum.Engine.BTree.Leaf.Entries.{
  hits, Before, lookup, Ascending, lookup_skip, lookup_found, lookup-none, lookup_without,
  lookup-at, Ascending-insert, Ascending-remove, All-tabulate, Before-at, take-tabulate,
  drop-tabulate, not_hits-Before, hits_itself, hits_other,
}

-- What is read of a cell stands in its own bytes.
key_len-take : (x : Bytes) → get_u16 (take (size_of true x) x) ≡ get_u16 x
unfolding get_u16 size_of
key_len-take x = ap (get_from 0) (peek-take 0 2 (size_of true x) x (omega arith))

cell_key-take : (x : Bytes) → cell_key true (take (size_of true x) x) ≡ cell_key true x
unfolding cell_key size_of
cell_key-take x =
    ap (λ n. take n (drop 7 (take (size_of true x) x))) (key_len-take x)
    ∙ peek-take 7 (get_u16 x) (size_of true x) x (omega arith)

overflowed-take : (x : Bytes) → overflowed (take (size_of true x) x) ≡ overflowed x
unfolding overflowed get_u8 size_of
overflowed-take x =
    ap (λ bs. not (bit_and (get_from 0 bs) 1 == 0)) (peek-take 2 1 (size_of true x) x (omega arith))

value_len-take : (x : Bytes) → value_len (take (size_of true x) x) ≡ value_len x
unfolding value_len get_u32 size_of
value_len-take x = ap (get_from 0) (peek-take 3 4 (size_of true x) x (omega arith))

spilled_size : (x : Bytes) → overflowed x ≡ true → size_of true x ≡ 7 + get_u16 x + 8
unfolding size_of
spilled_size x e = rw e

inlined_size : (x : Bytes) → overflowed x ≡ false → size_of true x ≡ 7 + get_u16 x + value_len x
unfolding size_of
inlined_size x e = rw e

overflow_page-take :
    (x : Bytes) → overflowed x ≡ true → overflow_page (take (size_of true x) x) ≡ overflow_page x
unfolding overflow_page get_u64
overflow_page-take x e =
    ap (λ n. get_u64 (drop (7 + n) (take (size_of true x) x))) (key_len-take x)
    ∙ ap (get_from 0)
        (peek-take (7 + get_u16 x) 8 (size_of true x) x (omega (arith, spilled_size x e)))

inline_value-take :
    (x : Bytes) → overflowed x ≡ false → inline_value (take (size_of true x) x) ≡ inline_value x
unfolding inline_value
inline_value-take x e =
    (λ i. take (value_len-take x i) (drop (7 + key_len-take x i) (take (size_of true x) x)))
    ∙ peek-take (7 + get_u16 x) (value_len x) (size_of true x) x (omega (arith, inlined_size x e))

stored_of-take : (x : Bytes) → stored_of (take (size_of true x) x) ≡ stored_of x
unfolding stored_of
stored_of-take x = elim (Bool-cases (overflowed x)) [
  | inl spills ↦
      rw (overflowed-take x ∙ spills, spills)
        (ap₂ Stored.spilled (value_len-take x) (overflow_page-take x spills))
  | inr inlines ↦
      rw (overflowed-take x ∙ inlines, inlines) (ap Stored.inlined (inline_value-take x inlines))
]

-- A leaf that waits for the cell of a key at its slot.
record Waits (usable : ℕ) (n k : Bytes) (slot : ℕ) (c m : Bytes) : Type 0 where
  node : IsNode usable m
  typed : node_type m ≡ leaf_type
  room : slot ≤ count m
  ascends : Ascending (cells m)
  front : All (λ d. Before d c) (take slot (cells m))
  back : All (Before c) (drop slot (cells m))
  others : (l : Bytes) → l ≢ k → lookup l (cells m) ≡ lookup l (cells n)

module _ (usable : ℕ) (n : Bytes) (v : IsNode usable n) (leaf : node_type n ≡ leaf_type) where
  is_leaf-true : is_leaf n ≡ true
  unfolding is_leaf
  is_leaf-true = ap (λ t. t == 1) leaf

  bytes-leaf : (i : ℕ) → cell_bytes n i ≡ take (size_of true (cell n i)) (cell n i)
  unfolding cell_size
  bytes-leaf i = ap (λ l. take (size_of l (cell n i)) (cell n i)) is_leaf-true

  pub key-cell : (i : ℕ) → key n i ≡ cell_key true (cell_bytes n i)
  unfolding key
  key-cell i =
      ap (λ l. cell_key l (cell n i)) is_leaf-true
      ∙ sym (cell_key-take (cell n i))
      ∙ ap (cell_key true) (sym (bytes-leaf i))

  stored-cell : (i : ℕ) → stored_of (cell_bytes n i) ≡ stored_of (cell n i)
  stored-cell i = ap stored_of (bytes-leaf i) ∙ stored_of-take (cell n i)

  pub Ascending-KeysAscend : Ascending (cells n) → KeysAscend n
  Ascending-KeysAscend asc i j h l =
      ap₂ compare_bytes (key-cell i) (key-cell j)
      ∙ Before-at (cell_bytes n) (count n) 0 i j asc (omega arith) h (omega (arith, l))

  module _ (asc : Ascending (cells n)) (k : Bytes) where
    abbrev here : ℕ
    here = (lower_bound n k).0

    bound : IsLowerBound n k (lower_bound n k)
    bound = lower_bound-IsLowerBound n k (Ascending-KeysAscend asc)

    hits-key : (i : ℕ) → hits k (cell_bytes n i) ≡ is_equal (compare_bytes (key n i) k)
    hits-key i = ap (λ x. is_equal (compare_bytes x k)) (sym (key-cell i))

    exact-has_key : (lower_bound n k).1 ≡ has_key n here k
    unfolding lower_bound has_key
    exact-has_key = refl

    not_before : (j : ℕ) → j < here → hits k (cell_bytes n j) ≡ false
    not_before j h = hits-key j ∙ ap is_equal (bound.less j h)

    not_there : has_key n here k ≡ false → (j : ℕ) → j < count n → hits k (cell_bytes n j) ≡ false
    not_there e j l = elim (Bool-cases (hits k (cell_bytes n j))) [
      | inr no_hit ↦ no_hit
      | inl hit ↦ absurd (
          false≢true (
            sym e
            ∙ sym exact-has_key
            ∙ (bound.found j l (compare_bytes-eq (key n j) k (equal (sym (hits-key j) ∙ hit)))).0))
    ]
      where
        equal :
            is_equal (compare_bytes (key n j) k) ≡ true → compare_bytes (key n j) k ≡ Ordering.eq
        equal t = ground arith

    -- Looking a key up in the leaf is looking it up in the list of its entries.
    pub leaf_get-lookup : leaf_get n k ≡ lookup k (cells n)
    unfolding leaf_get
    leaf_get-lookup = elim (Bool-cases (has_key n here k)) [
      | inl there ↦ rw there (
          ap some (sym (stored-cell here))
          ∙ sym (
              lookup-at k (cell_bytes n) (count n) 0 here (omega arith)
                (omega (arith, (bound.exact (exact-has_key ∙ there)).0)) (λ j a b. not_before j b)
                (hits-key here
                  ∙ ap (λ x. is_equal (compare_bytes x k)) (bound.exact (exact-has_key ∙ there)).1
                  ∙ ap is_equal (compare_bytes_refl k))))
      | inr missing ↦ rw missing (
          sym (
            lookup-none k (cells n) (
              All-tabulate (λ d. hits k d ≡ false) (cell_bytes n) (count n) 0
                (λ j a b. not_there missing j (omega (arith, b))))))
    ]

    module _ (c : Bytes) (holds : cell_key true c ≡ k) where
      Before-key : (j : ℕ) → compare_bytes (key n j) k ≡ Ordering.lt → Before (cell_bytes n j) c
      Before-key j h = ap₂ compare_bytes (sym (key-cell j)) holds ∙ h

      after-key : (j : ℕ) → compare_bytes k (key n j) ≡ Ordering.lt → Before c (cell_bytes n j)
      after-key j h = ap₂ compare_bytes holds (sym (key-cell j)) ∙ h

      front_n : All (λ d. Before d c) (take here (cells n))
      front_n =
          subst (All (λ d. Before d c))
            (sym (take-tabulate (cell_bytes n) here (count n) 0 bound.within))
            (All-tabulate (λ d. Before d c) (cell_bytes n) here 0
              (λ j a b. Before-key j (bound.less j (omega (arith, b)))))

      back_from :
          (from : ℕ)
          → from ≤ count n
          → ((j : ℕ) → from ≤ j → j < count n → compare_bytes k (key n j) ≡ Ordering.lt)
          → All (Before c) (drop from (cells n))
      back_from from h f =
          subst (All (Before c)) (sym (drop-tabulate (cell_bytes n) from (count n) 0 h)) (
            All-tabulate (Before c) (cell_bytes n) (count n - from) (0 + from)
              (λ j a b. after-key j (f j (omega (arith, a)) (omega (arith, b, h)))))

      greater :
          has_key n here k ≡ false
          → (j : ℕ) → here ≤ j
          → j < count n
          → compare_bytes k (key n j) ≡ Ordering.lt
      greater e j h l = compare_bytes_flip (key n j) k (
          neither (compare_bytes (key n j) k) (bound.not_less j h l)
            (sym (hits-key j) ∙ not_there e j l))
        where
          neither : (o : Ordering) → o ≢ Ordering.lt → is_equal o ≡ false → o ≡ Ordering.gt
          neither Ordering.lt a b = absurd (a refl)
          neither Ordering.eq a b = absurd (false≢true (sym b))
          neither Ordering.gt a b = refl

      behind_found :
          has_key n here k ≡ true
          → (j : ℕ) → here + 1 ≤ j
          → j < count n
          → compare_bytes k (key n j) ≡ Ordering.lt
      behind_found e j h l =
          ap (λ x. compare_bytes x (key n j)) (sym (bound.exact (exact-has_key ∙ e)).1)
          ∙ Ascending-KeysAscend asc here j (omega (arith, h)) l

      Waits-absent : has_key n here k ≡ false → Waits usable n k here c n
      Waits-absent e = record {
        node = v;
        typed = leaf;
        room = bound.within;
        ascends = asc;
        front = front_n;
        back = back_from here bound.within (greater e);
        others = λ l h. refl;
      }

      -- Without the cell that has the key.
      Waits-removed : has_key n here k ≡ true → Waits usable n k here c (remove_cell n here)
      Waits-removed e =
          let (node, content, typed) = remove_cell-cells usable n here v inside in
          record {
            node = node;
            typed = typed ∙ leaf;
            room =
                omega
                  (arith, sym (length-cells (remove_cell n here)), ap length content, split_length);
            ascends = subst Ascending (sym content) (Ascending-remove here (cells n) asc);
            front =
                subst (λ xs. All (λ d. Before d c) (take here xs)) (sym content)
                  (subst (All (λ d. Before d c))
                    (sym
                      (take_exact (take here (cells n)) (drop (here + 1) (cells n)) front_length))
                    front_n);
            back =
                subst (λ xs. All (Before c) (drop here xs)) (sym content)
                  (subst (All (Before c))
                    (sym
                      (drop_exact (take here (cells n)) (drop (here + 1) (cells n)) front_length))
                    (back_from (here + 1) (omega (arith, inside)) (behind_found e)));
            others = λ l h.
                ap (lookup l) content
                ∙ lookup_without l (cell_bytes n) here (count n) 0 inside (
                    hits_other k l (cell_bytes n (0 + here))
                      (ap (λ j. cell_key true (cell_bytes n j)) place
                        ∙ sym (key-cell here)
                        ∙ (bound.exact (exact-has_key ∙ e)).1)
                      h);
          }
        where
          inside : here < count n
          inside = (bound.exact (exact-has_key ∙ e)).0

          place : 0 + here ≡ here
          place = omega arith

          front_length : length (take here (cells n)) ≡ here
          front_length = omega (arith, length-take {0} here (cells n), length-cells n, inside)

          split_length :
              length (take here (cells n) ++ drop (here + 1) (cells n))
              ≡ here + length (drop (here + 1) (cells n))
          split_length =
              length-append (take here (cells n)) (drop (here + 1) (cells n))
              ∙ ap (λ m. m + length (drop (here + 1) (cells n))) front_length

      waits : Waits usable n k here c (without_replaced n here (has_key n here k))
      unfolding without_replaced
      waits = elim (Bool-cases (has_key n here k)) [
        | inl e ↦
            subst (λ b. Waits usable n k here c (without_replaced n here b)) (sym e)
              (Waits-removed e)
        | inr e ↦
            subst (λ b. Waits usable n k here c (without_replaced n here b)) (sym e)
              (Waits-absent e)
      ]

lookup-ready :
    (usable : ℕ) (n k : Bytes) (slot : ℕ) (c m q : Bytes)
    → Waits usable n k slot c m
    → cell_key true c ≡ k
    → cells q ≡ with_cell slot c (cells m)
    → Ascending (cells q)
      × (lookup k (cells q) ≡ some (stored_of c))
      × ((l : Bytes) → l ≢ k → lookup l (cells q) ≡ lookup l (cells n))
lookup-ready usable n k slot c m q w holds e = (
  subst Ascending (sym e) (Ascending-insert slot c (cells m) w.ascends w.front w.back),
  ap (lookup k) e
      ∙ lookup_found k c (take slot (cells m)) (drop slot (cells m))
          (not_hits-Before k c (take slot (cells m)) holds w.front) (hits_itself k c holds),
  λ l h. ap (lookup l) e ∙ lookup_skip l slot c (cells m) (hits_other k l c holds h) ∙ w.others l h,
)

-- `put` on a leaf in order: the leaf is in order again, `get` finds what the new cell stores under the key and
-- what it found before under every other key; or the cell has no room in the page and the leaf splits.
pub leaf_put-lookup :
    (page_size : ℕ) (n k c : Bytes)
    → IsNode (usable_bytes page_size) n
    → node_type n ≡ leaf_type
    → Ascending (cells n)
    → IsCell true c
    → cell_key true c ≡ k
    → ((q : Bytes) × (leaf_put page_size n k c ≡ some q)
        × IsNode (usable_bytes page_size) q
        × (node_type q ≡ leaf_type)
        × Ascending (cells q)
        × (leaf_get q k ≡ some (stored_of c))
        × ((l : Bytes) → l ≢ k → leaf_get q l ≡ leaf_get n l))
      ⊎ ((leaf_put page_size n k c ≡ none)
          × (usable_bytes page_size
              < 24
                + total_bytes (
                    cells
                      (without_replaced n (lower_bound n k).0 (has_key n (lower_bound n k).0 k)))
                + length c
                + 2))
unfolding leaf_put
leaf_put-lookup page_size n k c v leaf asc whole holds =
    elim (place_cell-cells page_size (without_replaced n s (has_key n s k)) s c w.node w.room
      as_cell) [
        | inr full ↦ inr full
        | inl (q, e, node, content, typed) ↦
            let (ascends, here, others) =
              lookup-ready (usable_bytes page_size) n k s c (without_replaced n s (has_key n s k)) q
                w holds content in
            inl (
              q,
              e,
              node,
              typed ∙ w.typed,
              ascends,
              leaf_get-lookup (usable_bytes page_size) q node (typed ∙ w.typed) ascends k ∙ here,
              λ l h.
                  leaf_get-lookup (usable_bytes page_size) q node (typed ∙ w.typed) ascends l
                  ∙ others l h
                  ∙ sym (leaf_get-lookup (usable_bytes page_size) n v leaf asc l),
            )
      ]
  where
    s : ℕ
    s = (lower_bound n k).0

    w : Waits (usable_bytes page_size) n k s c (without_replaced n s (has_key n s k))
    w = waits (usable_bytes page_size) n v leaf asc k c holds

    as_cell : IsCell (is_leaf (without_replaced n s (has_key n s k))) c
    as_cell =
        subst (λ b. IsCell b c)
          (sym (
            is_leaf-true (usable_bytes page_size) (without_replaced n s (has_key n s k)) w.node
              w.typed))
          whole

not_hits_after :
    (k c : Bytes) (xs : List Bytes)
    → cell_key true c ≡ k
    → All (Before c) xs
    → All (λ d. hits k d ≡ false) xs
not_hits_after k c [] e a = tt
not_hits_after k c (x ∷ xs) e a = (
  elim (Bool-cases (hits k x)) [
    | inr no_hit ↦ no_hit
    | inl hit ↦ absurd (
        differ (
          sym a.0
          ∙ ap₂ compare_bytes e (compare_bytes-eq (cell_key true x) k (equal hit))
          ∙ compare_bytes_refl k))
  ],
  not_hits_after k c xs e a.1,
)
  where
    equal : hits k x ≡ true → compare_bytes (cell_key true x) k ≡ Ordering.eq
    equal t = ground arith

    differ : Ordering.lt ≢ Ordering.eq
    differ h = ground arith

-- `erase` on a leaf in order: the key was not there and nothing is done, or the leaf is in order again, `get` does
-- not find the key and finds what it found before under every other key.
pub leaf_erase-lookup :
    (usable : ℕ) (n k : Bytes)
    → IsNode usable n
    → node_type n ≡ leaf_type
    → Ascending (cells n)
    → ((q : Bytes) × (leaf_erase n k ≡ some q)
        × IsNode usable q
        × (node_type q ≡ leaf_type)
        × Ascending (cells q)
        × (leaf_get q k ≡ none)
        × ((l : Bytes) → l ≢ k → leaf_get q l ≡ leaf_get n l))
      ⊎ ((leaf_erase n k ≡ none) × (leaf_get n k ≡ none))
unfolding leaf_erase
leaf_erase-lookup usable n k v leaf asc = elim (Bool-cases (has_key n s k)) [
  | inr missing ↦ inr (rw missing, absent missing)
  | inl there ↦
      let w = removed there in
      inl (
        remove_cell n s,
        rw there,
        w.node,
        w.typed,
        w.ascends,
        leaf_get-lookup usable (remove_cell n s) w.node w.typed w.ascends k
            ∙ lookup-none k (cells (remove_cell n s)) (
                subst (All (λ d. hits k d ≡ false)) (take-append-drop s (cells (remove_cell n s))) (
                  All-append (λ d. hits k d ≡ false) (take s (cells (remove_cell n s)))
                    (drop s (cells (remove_cell n s))) (not_hits-Before k c _ (holds there) w.front)
                    (not_hits_after k c _ (holds there) w.back))),
        λ l h.
            leaf_get-lookup usable (remove_cell n s) w.node w.typed w.ascends l
            ∙ w.others l h
            ∙ sym (leaf_get-lookup usable n v leaf asc l),
      )
]
  where
    s : ℕ
    s = (lower_bound n k).0

    c : Bytes
    c = cell_bytes n s

    absent : has_key n s k ≡ false → leaf_get n k ≡ none
    absent e = unfold leaf_get in rw e

    holds : has_key n s k ≡ true → cell_key true c ≡ k
    holds e =
        sym (key-cell usable n v leaf s)
        ∙ ((bound usable n v leaf asc k).exact (exact-has_key usable n v leaf asc k ∙ e)).1

    removed : has_key n s k ≡ true → Waits usable n k s c (remove_cell n s)
    removed e = Waits-removed usable n v leaf asc k c (holds e) e
