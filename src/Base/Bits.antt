-- ===== src/Base/Bits.antt =====
-- The laws of exclusive or on the native numbers, from its lowest binary digit.
use Prim.Native.Nat.{differ, digits, bit_xor-bitwise}
use archivum.Base.{
  ℕ, zero, suc, ◌+◌, ◌*◌, ◌/◌, ◌%◌, ◌^◌, ◌≤◌, ◌<◌, ◌≡◌, refl, sym, ap, ◌∙◌, ◌⊎◌, inl, inr, arith,
  bit_xor,
}
use mathlib.Core.Path.{ap₂}
use native.Mathlib.Nat.{pow-suc, div-div-eq-div-mul}

abbrev xor_digits : ℕ → ℕ → ℕ → ℕ
xor_digits n a b = digits (λ b. b) differ n a b

differ_lem : (a b : ℕ) → differ (a % 2) (b % 2) ≡ (a % 2 + b % 2) % 2
differ_lem a b = elim (two a) [
  | inl p ↦ rw p (elim (two b) [ inl q ↦ rw q | inr q ↦ rw q ])
  | inr p ↦ rw p (elim (two b) [ inl q ↦ rw q | inr q ↦ rw q ])
]
  where
    two : (x : ℕ) → (x % 2 ≡ 0) ⊎ (x % 2 ≡ 1)
    two x = omega arith

xor_digits_fuel : (n m a b : ℕ) → a ≤ n → a ≤ m → xor_digits n a b ≡ xor_digits m a b
xor_digits_fuel zero zero a b p q = refl
xor_digits_fuel zero (suc m) zero b p q = refl
xor_digits_fuel zero (suc m) (suc a) b p q = absurd (omega arith)
xor_digits_fuel (suc n) zero zero b p q = refl
xor_digits_fuel (suc n) zero (suc a) b p q = absurd (omega arith)
xor_digits_fuel (suc n) (suc m) zero b p q = refl
xor_digits_fuel (suc n) (suc m) (suc a) b p q =
    omega (arith, xor_digits_fuel n m (suc a / 2) (b / 2) (omega arith) (omega arith))

pub zero-xor : (b : ℕ) → bit_xor 0 b ≡ b
zero-xor b = bit_xor-bitwise 0 b

pub xor_step : (a b : ℕ) → bit_xor a b ≡ bit_xor (a / 2) (b / 2) * 2 + (a % 2 + b % 2) % 2
xor_step zero b = omega (arith, zero-xor b, zero-xor (b / 2))
xor_step (suc a) b = omega (
  arith,
  bit_xor-bitwise (suc a) b,
  bit_xor-bitwise (suc a / 2) (b / 2),
  differ_lem (suc a) b,
  xor_digits_fuel a (suc a / 2) (suc a / 2) (b / 2) (omega arith) (omega arith),
)

pub xor-div : (a b : ℕ) → bit_xor a b / 2 ≡ bit_xor (a / 2) (b / 2)
xor-div a b = omega (arith, xor_step a b)

pub xor-mod : (a b : ℕ) → bit_xor a b % 2 ≡ (a % 2 + b % 2) % 2
xor-mod a b = omega (arith, xor_step a b)

-- Two numbers of at most `n` binary digits are equal if halves and lowest digits are.
by_digits : (a b : ℕ) → a / 2 ≡ b / 2 → a % 2 ≡ b % 2 → a ≡ b
by_digits a b h l = omega arith

xor_comm_below : (n a b : ℕ) → a ≤ n → b ≤ n → bit_xor a b ≡ bit_xor b a
xor_comm_below zero zero zero p q = refl
xor_comm_below zero (suc a) b p q = absurd (omega arith)
xor_comm_below zero zero (suc b) p q = absurd (omega arith)
xor_comm_below (suc n) a b p q = omega (
  arith,
  xor_step a b,
  xor_step b a,
  xor_comm_below n (a / 2) (b / 2) (omega arith) (omega arith),
)

pub xor_comm : (a b : ℕ) → bit_xor a b ≡ bit_xor b a
xor_comm a b = xor_comm_below (a + b) a b (omega arith) (omega arith)

pub xor-zero : (a : ℕ) → bit_xor a 0 ≡ a
xor-zero a = xor_comm a 0 ∙ zero-xor a

xor_assoc_below :
    (n a b c : ℕ) → a ≤ n → b ≤ n → c ≤ n → bit_xor (bit_xor a b) c ≡ bit_xor a (bit_xor b c)
xor_assoc_below zero zero zero zero p q r = refl
xor_assoc_below zero (suc a) b c p q r = absurd (omega arith)
xor_assoc_below zero zero (suc b) c p q r = absurd (omega arith)
xor_assoc_below zero zero zero (suc c) p q r = absurd (omega arith)
xor_assoc_below (suc n) a b c p q r = omega (
  arith,
  xor_step (bit_xor a b) c,
  xor_step a (bit_xor b c),
  xor-mod a b,
  xor-mod b c,
  ap (λ t. bit_xor t (c / 2)) (xor-div a b),
  ap (bit_xor (a / 2)) (xor-div b c),
  xor_assoc_below n (a / 2) (b / 2) (c / 2) (omega arith) (omega arith) (omega arith),
)

pub xor_assoc : (a b c : ℕ) → bit_xor (bit_xor a b) c ≡ bit_xor a (bit_xor b c)
xor_assoc a b c = xor_assoc_below (a + b + c) a b c (omega arith) (omega arith) (omega arith)

xor_self_below : (n a : ℕ) → a ≤ n → bit_xor a a ≡ 0
xor_self_below zero zero p = refl
xor_self_below zero (suc a) p = absurd (omega arith)
xor_self_below (suc n) a p = omega (arith, xor_step a a, xor_self_below n (a / 2) (omega arith))

pub xor_self : (a : ℕ) → bit_xor a a ≡ 0
xor_self a = xor_self_below a a (omega arith)

pub xor_cancel : (a b : ℕ) → bit_xor a (bit_xor a b) ≡ b
xor_cancel a b = sym (xor_assoc a a b) ∙ ap (λ t. bit_xor t b) (xor_self a) ∙ zero-xor b

pub xor_left_injective : (a b c : ℕ) → bit_xor a b ≡ bit_xor a c → b ≡ c
xor_left_injective a b c h = sym (xor_cancel a b) ∙ ap (bit_xor a) h ∙ xor_cancel a c

-- Numbers of `k` binary digits are closed under exclusive or.
pub xor-lt : (k a b : ℕ) → a < 2 ^ k → b < 2 ^ k → bit_xor a b < 2 ^ k
xor-lt zero a b p q = omega (arith, ap (λ t. bit_xor t b) a0, zero-xor b)
  where
    a0 : a ≡ 0
    a0 = omega arith
xor-lt (suc k) a b p q = omega (
  arith,
  pow-suc 2 k,
  xor_step a b,
  xor-lt k (a / 2) (b / 2) (omega (arith, pow-suc 2 k)) (omega (arith, pow-suc 2 k)),
)

-- The top binary digit of a number of `k + 1` digits is set or cleared.
pub xor_top_clear : (k a : ℕ) → a < 2 ^ k → bit_xor a (2 ^ k) ≡ a + 2 ^ k
xor_top_clear zero zero p = refl
xor_top_clear zero (suc a) p = absurd (omega arith)
xor_top_clear (suc k) a p = omega (
  arith,
  pow-suc 2 k,
  xor_step a (2 ^ suc k),
  ap (bit_xor (a / 2)) halve,
  xor_top_clear k (a / 2) (omega (arith, pow-suc 2 k)),
)
  where
    halve : 2 ^ suc k / 2 ≡ 2 ^ k
    halve = omega (arith, pow-suc 2 k)

pub xor_top_set : (k a : ℕ) → a < 2 ^ k → bit_xor (a + 2 ^ k) (2 ^ k) ≡ a
xor_top_set k a p =
    ap (λ t. bit_xor t (2 ^ k)) (sym (xor_top_clear k a p))
    ∙ xor_assoc a (2 ^ k) (2 ^ k)
    ∙ ap (bit_xor a) (xor_self (2 ^ k))
    ∙ xor-zero a

-- Below and above digit `k` nothing carries.
pub xor_disjoint : (k l q : ℕ) → l < 2 ^ k → bit_xor l (2 ^ k * q) ≡ l + 2 ^ k * q
xor_disjoint zero l q p =
    omega (arith, zero-xor q, ap (λ t. bit_xor t (1 * q)) l0, ap (bit_xor 0) q1)
  where
    l0 : l ≡ 0
    l0 = omega arith

    q1 : 1 * q ≡ q
    q1 = omega arith
xor_disjoint (suc k) l q p = omega (
  arith,
  pow-suc 2 k,
  xor_step l (2 ^ suc k * q),
  ap (λ t. t * q) (pow-suc 2 k),
  ap (bit_xor (l / 2)) halve,
  xor_disjoint k (l / 2) q (omega (arith, pow-suc 2 k)),
)
  where
    halve : 2 ^ suc k * q / 2 ≡ 2 ^ k * q
    halve = omega (arith, ap (λ t. t * q) (pow-suc 2 k))

half_first : (k x : ℕ) → x / 2 ^ suc k ≡ x / 2 / 2 ^ k
half_first k x = ap (λ t. x / t) (omega (arith, pow-suc 2 k)) ∙ sym (div-div-eq-div-mul x 2 (2 ^ k))

pub xor-div-pow : (k a b : ℕ) → bit_xor a b / 2 ^ k ≡ bit_xor (a / 2 ^ k) (b / 2 ^ k)
xor-div-pow zero a b = div-one (bit_xor a b) ∙ sym (ap₂ bit_xor (div-one a) (div-one b))
  where
    div-one : (x : ℕ) → x / 1 ≡ x
    div-one x = omega arith
xor-div-pow (suc k) a b =
    half_first k (bit_xor a b)
    ∙ ap (λ t. t / 2 ^ k) (xor-div a b)
    ∙ xor-div-pow k (a / 2) (b / 2)
    ∙ sym (ap₂ bit_xor (half_first k a) (half_first k b))
