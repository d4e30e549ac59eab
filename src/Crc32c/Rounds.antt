-- ===== src/Crc32c/Rounds.antt =====
-- The shift register behind the table: rounds are linear, injective, and keep to 32 bits.
use archivum.Base.{
  ℕ, zero, suc, ◌+◌, ◌*◌, ◌/◌, ◌%◌, ◌^◌, ◌≤◌, ◌<◌, ◌≡◌, refl, sym, ap, ◌∙◌, ◌⊎◌, inl, inr, arith,
  bit_xor, Bytes, IsBytes, [], ◌∷◌,
}
use native.Mathlib.Nat.{pow-suc}
use archivum.Base.Bits.{
  xor_comm, xor_assoc, xor-div, xor-mod, xor-lt, xor_top_clear, xor_left_injective, xor_cancel,
  xor-zero, xor_disjoint, xor-div-pow,
}
use archivum.Crc32c.{polynomial, round, rounds, make_table, table, entry, update, update_all}

parity : (c : ℕ) → (c % 2 ≡ 0) ⊎ (c % 2 ≡ 1)
parity c = omega arith

round_even : (c : ℕ) → c % 2 ≡ 0 → round c ≡ c / 2
unfolding round
round_even c h = ground arith

round_odd : (c : ℕ) → c % 2 ≡ 1 → round c ≡ bit_xor polynomial (c / 2)
unfolding round
round_odd c h = ground arith

pub round-lt : (c : ℕ) → c < 2 ^ 32 → round c < 2 ^ 32
round-lt c h = elim (parity c) [
  | inl e ↦ rw (round_even c e) (omega arith)
  | inr e ↦ rw (round_odd c e) (xor-lt 32 polynomial (c / 2) (omega arith) (omega arith))
]

-- The polynomial's top bit comes back in the result of an odd round.
odd_is_high : (m : ℕ) → m < 2 ^ 31 → 2 ^ 31 ≤ bit_xor polynomial m
odd_is_high m h = rw split (rw (xor_top_clear 31 _ low) (omega arith))
  where
    low : bit_xor 0x2F63B78 m < 2 ^ 31
    low = xor-lt 31 0x2F63B78 m (omega arith) h

    split : bit_xor polynomial m ≡ bit_xor (bit_xor 0x2F63B78 m) (2 ^ 31)
    split = xor_assoc (2 ^ 31) 0x2F63B78 m ∙ xor_comm (2 ^ 31) (bit_xor 0x2F63B78 m)

-- A round loses nothing of a 32-bit word.
pub round_injective : (a b : ℕ) → a < 2 ^ 32 → b < 2 ^ 32 → round a ≡ round b → a ≡ b
round_injective a b p q h = elim (parity a) [
  | inl ea ↦ elim (parity b) [
    | inl eb ↦ omega (arith, round_even a ea, round_even b eb)
    | inr eb ↦
        absurd (omega (arith, round_even a ea, round_odd b eb, odd_is_high (b / 2) (omega arith)))
  ]
  | inr ea ↦ elim (parity b) [
    | inl eb ↦
        absurd (omega (arith, round_odd a ea, round_even b eb, odd_is_high (a / 2) (omega arith)))
    | inr eb ↦ omega (arith, halves ea eb)
  ]
]
  where
    halves : a % 2 ≡ 1 → b % 2 ≡ 1 → a / 2 ≡ b / 2
    halves ea eb =
        xor_left_injective polynomial (a / 2) (b / 2) (sym (round_odd a ea) ∙ h ∙ round_odd b eb)

xor_swap : (p a b : ℕ) → bit_xor p (bit_xor a b) ≡ bit_xor a (bit_xor p b)
xor_swap p a b = sym (xor_assoc p a b) ∙ ap (λ t. bit_xor t b) (xor_comm p a) ∙ xor_assoc a p b

-- Rounds are linear over exclusive or.
round-xor : (a b : ℕ) → round (bit_xor a b) ≡ bit_xor (round a) (round b)
round-xor a b = elim (parity a) [
  | inl ea ↦ elim (parity b) [
    | inl eb ↦
        rw (round_even (bit_xor a b) (even ea eb), round_even a ea, round_even b eb) (xor-div a b)
    | inr eb ↦
        rw
          (
            round_odd (bit_xor a b) (odd (omega arith)),
            round_even a ea,
            round_odd b eb,
            xor-div a b,
          )
          (xor_swap polynomial (a / 2) (b / 2))
  ]
  | inr ea ↦ elim (parity b) [
    | inl eb ↦
        rw
          (
            round_odd (bit_xor a b) (odd (omega arith)),
            round_odd a ea,
            round_even b eb,
            xor-div a b,
          )
          (sym (xor_assoc polynomial (a / 2) (b / 2)))
    | inr eb ↦
        rw
          (
            round_even (bit_xor a b) (omega (arith, xor-mod a b)),
            round_odd a ea,
            round_odd b eb,
            xor-div a b,
          )
          (sym (
            xor_assoc polynomial (a / 2) (bit_xor polynomial (b / 2))
            ∙ ap (bit_xor polynomial) (xor_swap (a / 2) polynomial (b / 2))
            ∙ xor_cancel polynomial (bit_xor (a / 2) (b / 2))))
  ]
]
  where
    even : a % 2 ≡ 0 → b % 2 ≡ 0 → bit_xor a b % 2 ≡ 0
    even ea eb = omega (arith, xor-mod a b)

    odd : a % 2 + b % 2 ≡ 1 → bit_xor a b % 2 ≡ 1
    odd h = omega (arith, xor-mod a b)

pub rounds-lt : (k c : ℕ) → c < 2 ^ 32 → rounds k c < 2 ^ 32
unfolding rounds
rounds-lt zero c h = h
rounds-lt (suc k) c h = rounds-lt k (round c) (round-lt c h)

pub rounds_injective : (k a b : ℕ) → a < 2 ^ 32 → b < 2 ^ 32 → rounds k a ≡ rounds k b → a ≡ b
unfolding rounds
rounds_injective zero a b p q h = h
rounds_injective (suc k) a b p q h =
    round_injective a b p q (rounds_injective k (round a) (round b) (round-lt a p) (round-lt b q) h)

pub rounds-xor : (k a b : ℕ) → rounds k (bit_xor a b) ≡ bit_xor (rounds k a) (rounds k b)
unfolding rounds
rounds-xor zero a b = refl
rounds-xor (suc k) a b = ap (rounds k) (round-xor a b) ∙ rounds-xor k (round a) (round b)

-- `k` rounds of a word whose low `k` digits are clear are a shift.
pub rounds_shift : (k q : ℕ) → rounds k (2 ^ k * q) ≡ q
unfolding rounds
rounds_shift zero q = omega arith
rounds_shift (suc k) q = ap (rounds k) step ∙ rounds_shift k q
  where
    double : 2 ^ suc k * q ≡ 2 * (2 ^ k * q)
    double = omega (arith, ap (λ t. t * q) (pow-suc 2 k))

    step : round (2 ^ suc k * q) ≡ 2 ^ k * q
    step = round_even _ (omega (arith, double)) ∙ omega (arith, double)

-- The table holds eight rounds of each byte.
entry-make_table : (n i j : ℕ) → j < n → entry (make_table n i) j ≡ rounds 8 (i + j)
unfolding make_table entry
entry-make_table zero i j h = elim h [ ]
entry-make_table (suc n) i zero h = ap (rounds 8) (omega arith)
entry-make_table (suc n) i (suc j) h =
    entry-make_table n (i + 1) j (omega arith) ∙ ap (rounds 8) (omega arith)

pub entry-table : (j : ℕ) → j < 256 → entry table j ≡ rounds 8 j
unfolding table
entry-table j h = entry-make_table 256 0 j h ∙ ap (rounds 8) (omega arith)

-- One step of the table-driven loop is eight rounds of the shift register.
pub update-eq-rounds : (c b : ℕ) → b < 256 → update c b ≡ rounds 8 (bit_xor c b)
unfolding update
update-eq-rounds c b h = sym (ap (rounds 8) whole ∙ rounds-xor 8 low (2 ^ 8 * high) ∙ parts)
  where
    low : ℕ
    low = bit_xor c b % 256

    high : ℕ
    high = bit_xor c b / 256

    whole : bit_xor c b ≡ bit_xor low (2 ^ 8 * high)
    whole = omega (arith, xor_disjoint 8 low high (omega arith))

    shifted : high ≡ c / 256
    shifted = xor-div-pow 8 c b ∙ ap (bit_xor (c / 256)) small ∙ xor-zero (c / 256)
      where
        small : b / 256 ≡ 0
        small = omega arith

    parts : bit_xor (rounds 8 low) (rounds 8 (2 ^ 8 * high)) ≡ bit_xor (entry table low) (c / 256)
    parts =
        ap (bit_xor (rounds 8 low)) (rounds_shift 8 high ∙ shifted)
        ∙ ap (λ t. bit_xor t (c / 256)) (sym (entry-table low (omega arith)))

pub update-lt : (c b : ℕ) → c < 2 ^ 32 → b < 256 → update c b < 2 ^ 32
update-lt c b p q = rw (update-eq-rounds c b q) (rounds-lt 8 _ (xor-lt 32 c b p (omega arith)))

pub update_all-lt : (c : ℕ) (bs : Bytes) → c < 2 ^ 32 → IsBytes bs → update_all c bs < 2 ^ 32
unfolding update_all
update_all-lt c [] h v = h
update_all-lt c (b ∷ bs) h v = update_all-lt (update c b) bs (update-lt c b h v.0) v.1
