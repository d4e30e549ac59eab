-- ===== src/Status.antt =====
-- engine/include/archivum/status.h: the error vocabulary. `Status` is `Result` of the unit type.
-- The texts of the messages are not modelled, only the code that callers branch on.
use archivum.Base.{Bool, true, false, false≢true, ◌≡◌, refl, ap}

-- `ErrorCode` without `Ok`, which is the other side of a `Result`.
pub data ErrorCode : Type 0 where
  io_error not_found already_exists corrupt invalid_argument unsupported crashed busy constraint :
      ErrorCode

pub data Result {ℓ} (A : Type ℓ) : Type ℓ where
  ok : A → Result A
  err : ErrorCode → Result A

abbrev pub Status : Type 0
Status = Result (Unit {0})

abbrev pub is_ok {ℓ} : {A : Type ℓ} → Result A → Bool
is_ok (ok a) = true
is_ok (err e) = false

-- `if (!r.ok()) return r.status();`
infixl 5 ◌>>=◌ ◌>>◌
abbrev pub ◌>>=◌ {ℓ κ} : {A : Type ℓ} {B : Type κ} → Result A → (A → Result B) → Result B
ok a >>= f = f a
err e >>= f = err e

abbrev pub ◌>>◌ {ℓ} : {B : Type ℓ} → Status → Result B → Result B
m >> k = m >>= λ _. k

-- `if (!test) return Status(code);`
abbrev pub require : Bool → ErrorCode → Status
require true e = ok tt
require false e = err e

abbrev pub value_or {ℓ} : {A : Type ℓ} → A → Result A → A
value_or a (ok b) = b
value_or a (err e) = a

-- A chain that succeeds has a first step that succeeds, and a rest that does.
pub bind-ok {ℓ κ} :
    {A : Type ℓ} {B : Type κ} (m : Result A) (f : A → Result B) (b : B)
    → (m >>= f) ≡ ok b
    → (a : A) × (m ≡ ok a) × (f a ≡ ok b)
bind-ok (ok a) f b h = (a, refl, h)
bind-ok (err e) f b h = absurd (false≢true (ap is_ok h))

pub require-ok : (b : Bool) (e : ErrorCode) → require b e ≡ ok tt → b ≡ true
require-ok true e h = refl
require-ok false e h = absurd (false≢true (ap is_ok h))

pub bind_assoc {ℓ κ μ} :
    {A : Type ℓ} {B : Type κ} {C : Type μ} (m : Result A) (f : A → Result B) (g : B → Result C)
    → (m >>= λ a. f a >>= g) ≡ ((m >>= f) >>= g)
bind_assoc (ok a) f g = refl
bind_assoc (err e) f g = refl
