-- ===== src/Engine/BTree/Overflow/RoundTrip.antt =====
-- A value written to overflow pages reads back, in engine/src/engine/btree.cpp.
use native.Mathlib.Nat.{
  zero-mul, suc-mul, add-mul, mod-lt, div-add-mod', div-mul-le_self, div-lt_iff_lt-mul,
}
use mathlib.Core.List.{append-nil, append_assoc}
use archivum.Base.{
  ℕ, zero, suc, ◌+◌, ◌-◌, ◌*◌, ◌/◌, ◌%◌, ◌^◌, ◌<◌, ◌≤◌, ◌≡◌, ◌≢◌, ◌==◌, refl, sym, ap, ◌∙◌, subst,
  arith, ltb, min, Bool-cases, inl, inr, true, false, false≢true, some, List, [], ◌∷◌, ◌++◌, Bytes,
  All, length, length-take, length-drop, length-replicate, take, drop, take-append-drop, take_all,
  replicate,
}
use archivum.Status.{Result, ok, value_or}
use archivum.LittleEndian.{put_u64, get_u64, get_from}
use archivum.LittleEndian.Laws.{length-put_u64, get_u64-put_u64}
use archivum.Engine.BTree.Node.{poke, peek}
use archivum.Engine.BTree.Node.Memory.{length-poke, drop-poke, peek-poke_before, peek-poke_inside}
use archivum.Engine.BTree.Pages.{Pages, PageLaws, and_then, and_then-ok, is_zero-false}
use archivum.Engine.BTree.Overflow.{
  capacity, overflow_image, first_of, allocate_all, write_chain, write_overflow, read_chain,
  read_overflow,
}

-- No page is there twice.
abbrev pub Distinct : List ℕ → Type 0
Distinct [] = Unit {0}
Distinct (p ∷ ps) = All (λ q. p ≢ q) ps × Distinct ps

module _ (page_size next : ℕ) (part : Bytes) (roomy : 12 ≤ page_size)
    (small : length part ≤ capacity page_size) (fits : next < 2 ^ 64) where
  abbrev zeros : Bytes
  zeros = replicate page_size 0

  abbrev headed : Bytes
  headed = poke 0 (put_u64 next) zeros

  head_within : 0 + length (put_u64 next) ≤ length zeros
  head_within = omega (arith, length-put_u64 next, length-replicate {A = ℕ} page_size 0, roomy)

  length-headed : length headed ≡ page_size
  length-headed = length-poke 0 (put_u64 next) zeros head_within ∙ length-replicate page_size 0

  part_within : 8 + length part ≤ length headed
  part_within = omega (arith, length-headed, small, roomy)

  -- The page gives the part back, and the number of the next page.
  part_back : peek 8 (length part) (overflow_image page_size next part) ≡ part
  unfolding overflow_image
  part_back =
      peek-poke_inside 8 part headed part_within 0 (length part) (omega arith)
      ∙ take_all (length part) part (omega arith)

  pub next_back : get_u64 (overflow_image page_size next part) ≡ next
  unfolding overflow_image get_u64
  next_back =
      ap (get_from 0) (peek-poke_before 8 part headed part_within 0 8 (omega arith))
      ∙ ap (λ bs. get_from 0 (take 8 bs)) (drop-poke 0 (put_u64 next) zeros head_within)
      ∙ get_u64-put_u64 next _ fits

module _ (S : Type 0) (pages : Pages S) (laws : PageLaws S pages) (page_size : ℕ)
    (roomy : 13 ≤ page_size) where
  abbrev cap : ℕ
  cap = capacity page_size

  some_capacity : 1 ≤ cap
  some_capacity = omega (arith, roomy)

  -- The pages hold the value.
  abbrev pub Chain : S → List ℕ → Bytes → Type 0
  Chain s [] value = length value ≡ 0
  Chain s (p ∷ ps) value =
      (p ≢ 0)
      × (0 < length value)
      × (first_of ps < 2 ^ 64)
      × (laws.view s p ≡ some (overflow_image page_size (first_of ps) (take cap value)))
      × Chain s ps (drop cap value)

  pub part_size : (value : Bytes) → length (take cap value) ≡ min cap (length value)
  part_size value = length-take {0} cap value

  rest_size : (value : Bytes) → length value - min cap (length value) ≡ length (drop cap value)
  rest_size value = ground (arith, length-drop {0} cap value)

  -- Reading the chain.
  read_chain-Chain :
      (s : S) (ps : List ℕ) (value : Bytes) (fuel total hops : ℕ) (out : Bytes)
      → Chain s ps value
      → length value ≤ fuel
      → hops + length ps ≤ total / cap + 2
      → read_chain S pages page_size fuel total (first_of ps) (length value) hops out s
        ≡ ok (out ++ value)
  unfolding read_chain
  read_chain-Chain s [] [] zero total hops out c h l = ap ok (sym (append-nil out))
  read_chain-Chain s [] [] (suc fuel) total hops out c h l = ap ok (sym (append-nil out))
  read_chain-Chain s [] (x ∷ value) fuel total hops out c h l = absurd (omega (arith, c))
  read_chain-Chain s (p ∷ ps) value zero total hops out c h l = absurd (omega (arith, c.1, h))
  read_chain-Chain s (p ∷ ps) value (suc fuel) total hops out c h l =
      rw (more, real, few, laws.reads s p _ c.3)
        ((λ i.
            read_chain S pages page_size fuel total
              (next_back page_size (first_of ps) (take cap value) (omega (arith, roomy)) small c.2
                i)
              (rest_size value i) (hops + 1) (out ++ got i) s)
          ∙ read_chain-Chain s ps (drop cap value) fuel total (hops + 1) (out ++ take cap value) c.4
              (omega (arith, sym (rest_size value), h, c.1, some_capacity)) (omega (arith, l))
          ∙ ap ok (
              append_assoc out (take cap value) (drop cap value)
              ∙ ap (◌++◌ out) (take-append-drop cap value)))
    where
      small : length (take cap value) ≤ cap
      small = omega (arith, part_size value)

      got :
          peek 8 (min cap (length value)) (overflow_image page_size (first_of ps) (take cap value))
          ≡ take cap value
      got =
          ap (λ n. peek 8 n (overflow_image page_size (first_of ps) (take cap value)))
            (sym (part_size value))
          ∙ part_back page_size (first_of ps) (take cap value) (omega (arith, roomy)) small c.2

      more : (length value == 0) ≡ false
      more = ground (arith, c.1)

      real : (p == 0) ≡ false
      real = is_zero-false p c.0

      few : ltb (total / cap + 2) (hops + 1) ≡ false
      few = ground (arith, l)

  abbrev Valid : ℕ → Type 0
  Valid p = (p ≢ 0) × (p < 2 ^ 64)

  first_fits : (ps : List ℕ) → All Valid ps → first_of ps < 2 ^ 64
  first_fits [] a = omega arith
  first_fits (p ∷ ps) a = a.0.1

  write_chain_keeps :
      (ps : List ℕ) (value : Bytes) (s s' : S) (q : ℕ)
      → write_chain S pages page_size ps value s ≡ (ok tt, s')
      → All (λ p. q ≢ p) ps
      → laws.view s' q ≡ laws.view s q
  unfolding write_chain
  write_chain_keeps [] value s s' q e a = ap (λ t. laws.view t q) (sym (ap (λ r. r.1) e))
  write_chain_keeps (p ∷ ps) value s s' q e a =
      let (u, t, w, more) = and_then-ok _ _ tt s' e in
      write_chain_keeps ps (drop cap value) t s' q more a.1
      ∙ laws.keeps s t p q (overflow_image page_size (first_of ps) (take cap value)) w a.0

  pub write_chain-Chain :
      (ps : List ℕ) (value : Bytes) (s s' : S)
      → write_chain S pages page_size ps value s ≡ (ok tt, s')
      → Distinct ps
      → All Valid ps
      → length value ≤ length ps * cap
      → length ps * cap < length value + cap
      → Chain s' ps value
  unfolding write_chain
  write_chain-Chain [] value s s' e d a h l = omega (arith, h, zero-mul cap)
  write_chain-Chain (p ∷ ps) value s s' e d a h l =
      let (u, t, w, more) = and_then-ok _ _ tt s' e in
      (
        a.0.0,
        omega (arith, l, suc-mul (length ps) cap),
        first_fits ps a.1,
        write_chain_keeps ps (drop cap value) t s' p more d.0
            ∙ laws.writes s t p (overflow_image page_size (first_of ps) (take cap value)) w,
        write_chain-Chain ps (drop cap value) t s' more d.1 a.1
            (omega (arith, h, suc-mul (length ps) cap, length-drop {0} cap value))
            (ground (arith, l, suc-mul (length ps) cap, length-drop {0} cap value)),
      )

  allocated_fresh :
      (n : ℕ) (s t : S) (p : ℕ) (ps : List ℕ)
      → laws.room (suc n) s
      → pages.allocate_page s ≡ (ok p, t)
      → All (λ q. laws.in_use t q ≡ false) ps
      → All (λ q. laws.in_use s q ≡ false) ps
  allocated_fresh n s t p [] m e a = tt
  allocated_fresh n s t p (q ∷ ps) m e a = (
    elim (Bool-cases (laws.in_use s q)) [
      | inr free ↦ free
      | inl used ↦ absurd (false≢true (sym a.0 ∙ laws.stays n s t p q m e used))
    ],
    allocated_fresh n s t p ps m e a.1,
  )

  others :
      (t : S) (p : ℕ) (ps : List ℕ)
      → laws.in_use t p ≡ true
      → All (λ q. laws.in_use t q ≡ false) ps
      → All (λ q. p ≢ q) ps
  others t p [] u a = tt
  others t p (q ∷ ps) u a =
      (λ e. false≢true (sym a.0 ∙ ap (laws.in_use t) (sym e) ∙ u), others t p ps u a.1)

  abbrev pub Fresh : ℕ → S → List ℕ → Type 0
  Fresh n s ps =
      (length ps ≡ n) × Distinct ps × All Valid ps × All (λ p. laws.in_use s p ≡ false) ps

  pub allocate_all-Fresh :
      (n : ℕ) (s s' : S) (ps : List ℕ)
      → laws.room n s
      → allocate_all S pages page_size n s ≡ (ok ps, s')
      → Fresh n s ps
  unfolding allocate_all
  allocate_all-Fresh zero s s' ps m e =
      subst (Fresh 0 s) (ap (λ (r : Result (List ℕ) × S). value_or [] r.0) e) (refl, tt, tt, tt)
  allocate_all-Fresh (suc n) s s' ps m e =
      let (p, t, alloc, more) =
        and_then-ok (pages.allocate_page s)
          (λ p s1. and_then (allocate_all S pages page_size n s1) (λ qs s2. (ok (p ∷ qs), s2))) ps
          s' e in
      let (qs, t', rest, done) =
        and_then-ok (allocate_all S pages page_size n t) (λ qs s2. (ok (p ∷ qs), s2)) ps s' more in
      let (len, distinct, valid, free) =
        allocate_all-Fresh n t t' qs (laws.allocated n s t p m alloc).2 rest in
      subst (Fresh (suc n) s) (ap (λ (r : Result (List ℕ) × S). value_or [] r.0) done) (
        ap suc len,
        (others t p qs (laws.fresh n s t p m alloc).1 free, distinct),
        (((laws.allocated n s t p m alloc).0, (laws.allocated n s t p m alloc).1), valid),
        ((laws.fresh n s t p m alloc).0, allocated_fresh n s t p qs m alloc free),
      )

  -- How many pages a value has.
  abbrev pub pages_of : Bytes → ℕ
  pages_of value = (length value + cap - 1) / cap

  pub enough_pages : (value : Bytes) → length value ≤ pages_of value * cap
  enough_pages value = omega (
    arith,
    div-add-mod' (length value + cap - 1) cap,
    mod-lt (length value + cap - 1) {m = cap} some_capacity,
    some_capacity,
  )

  pub no_page_more : (value : Bytes) → pages_of value * cap < length value + cap
  no_page_more value = omega (arith, div-mul-le_self (length value + cap - 1) cap, some_capacity)

  few_hops : (value : Bytes) → pages_of value ≤ length value / cap + 2
  few_hops value = omega (
    arith,
    (div-lt_iff_lt-mul {k = cap} {x = length value + cap - 1} {y = length value / cap + 3}
          some_capacity).1
        below,
  )
    where
      below : length value + cap - 1 < (length value / cap + 3) * cap
      below = omega (
        arith,
        add-mul (length value / cap) 3 cap,
        div-add-mod' (length value) cap,
        mod-lt (length value) {m = cap} some_capacity,
        some_capacity,
      )

  -- What the two loops of a write leave.
  pub write_overflow-Chain :
      (value : Bytes) (s t t' : S) (ps : List ℕ)
      → laws.room (pages_of value) s
      → allocate_all S pages page_size (pages_of value) s ≡ (ok ps, t)
      → write_chain S pages page_size ps value t ≡ (ok tt, t')
      → (length ps ≡ pages_of value)
        × Chain t' ps value
        × Distinct ps
        × All (λ p. laws.in_use s p ≡ false) ps
  write_overflow-Chain value s t t' ps m alloc written =
      let (len, distinct, valid, free) = allocate_all-Fresh (pages_of value) s t ps m alloc in
      (
        len,
        write_chain-Chain ps value t t' written distinct valid
            (subst (λ n. length value ≤ n * cap) (sym len) (enough_pages value))
            (subst (λ n. n * cap < length value + cap) (sym len) (no_page_more value)),
        distinct,
        free,
      )

  mod-eq_self : (n : ℕ) → n < 2 ^ 32 → n % 2 ^ 32 ≡ n
  mod-eq_self n h = omega (arith, h)

  -- A value that was written to the pages reads back.
  pub read_overflow-written :
      (value : Bytes) (s s' : S) (first : ℕ)
      → length value < 2 ^ 32
      → laws.room (pages_of value) s
      → write_overflow S pages page_size value s ≡ (ok first, s')
      → read_overflow S pages page_size first (length value) s' ≡ ok value
  unfolding write_overflow read_overflow
  read_overflow-written value s s' first fits m e =
      let (ps, t, alloc, more) =
        and_then-ok (allocate_all S pages page_size (pages_of value) s)
          (λ ps s1.
            and_then (write_chain S pages page_size ps value s1) (λ u s2. (ok (first_of ps), s2)))
          first s' e in
      let (u, t', written, done) =
        and_then-ok (write_chain S pages page_size ps value t) (λ u s2. (ok (first_of ps), s2))
          first s' more in
      let (len, chain, distinct, free) = write_overflow-Chain value s t t' ps m alloc written in
      (λ i.
        read_chain S pages page_size (mod-eq_self (length value) fits i)
          (mod-eq_self (length value) fits i) (value_or 0 (sym done i).0)
          (mod-eq_self (length value) fits i) 0 [] (sym done i).1)
      ∙ read_chain-Chain t' ps value (length value) (length value) 0 [] chain (omega arith)
          (omega (arith, len, few_hops value))
