-- ===== src/Punchline/Fields.antt =====
-- engine/include/archivum/engine/types.h and modules/punchline/src/data.cpp: how a column of a row is
-- read and written. A text is its bytes, and an accessor of another kind of value gives the member's
-- default, as in `Value`.
use archivum.Base.{
  ℕ, zero, suc, ◌≡◌, refl, if◌then◌else◌, Bool, true, false, Option, none, some, [], ◌∷◌, Bytes,
  replicate, get_elem?, ap, and-split, ==_iff, false≢true, arith, ◌==◌,
}
use archivum.Base.Int.{ℤ, pos, negsuc}
use archivum.Engine.PageFormat.{bytes_eq}
use archivum.Engine.Types.{Value, Row, is_null}

abbrev pub eqb_ℤ : ℤ → ℤ → Bool
eqb_ℤ (pos m) (pos n) = m == n
eqb_ℤ (negsuc m) (negsuc n) = m == n
eqb_ℤ a b = false

-- `r[i]`; the rows of a table have all its columns.
abbrev pub column : Row → ℕ → Value
column r i = elim (get_elem? r i) [ none ↦ Value.null | some v ↦ v ]

unfoldable pub as_int64 : Value → ℤ
as_int64 (Value.integer i) = i
as_int64 (Value.decimal i) = i
as_int64 (Value.timestamp i) = i
as_int64 (Value.boolean true) = pos 1
as_int64 v = pos 0

unfoldable pub as_bool : Value → Bool
as_bool (Value.boolean b) = b
as_bool (Value.integer i) = if eqb_ℤ i (pos 0) then false else true
as_bool (Value.decimal i) = if eqb_ℤ i (pos 0) then false else true
as_bool (Value.timestamp i) = if eqb_ℤ i (pos 0) then false else true
as_bool v = false

unfoldable pub as_text : Value → Bytes
as_text (Value.text t) = t
as_text v = []

unfoldable pub as_blob : Value → Bytes
as_blob (Value.blob b) = b
as_blob v = []

unfoldable pub as_uuid : Value → Bytes
as_uuid (Value.uuid u) = u
as_uuid v = replicate 16 0

unfoldable pub opt_text : Bytes → Value
opt_text [] = Value.null
opt_text (c ∷ t) = Value.text (c ∷ t)

unfoldable pub opt_ts : ℤ → Value
opt_ts t = if eqb_ℤ t (pos 0) then Value.null else Value.timestamp t

unfoldable pub opt_id : ℤ → Value
opt_id t = if eqb_ℤ t (pos 0) then Value.null else Value.integer t

unfoldable pub opt_int : Option ℤ → Value
opt_int none = Value.null
opt_int (some i) = Value.integer i

unfoldable pub opt_uuid : Option Bytes → Value
opt_uuid none = Value.null
opt_uuid (some u) = Value.uuid u

unfoldable pub text_or_empty : Value → Bytes
unfolding as_text
text_or_empty v = if is_null v then [] else as_text v

unfoldable pub int_or_zero : Value → ℤ
unfolding as_int64
int_or_zero v = if is_null v then pos 0 else as_int64 v

unfoldable pub int_opt : Value → Option ℤ
unfolding as_int64
int_opt v = if is_null v then none else some (as_int64 v)

unfoldable pub uuid_opt : Value → Option Bytes
unfolding as_uuid
uuid_opt v = if is_null v then none else some (as_uuid v)

-- What the optional writers write, the optional readers read back.
pub int_or_zero-opt_ts : (t : ℤ) → int_or_zero (opt_ts t) ≡ t
unfolding int_or_zero opt_ts
int_or_zero-opt_ts (pos zero) = refl
int_or_zero-opt_ts (pos (suc n)) = ground arith
int_or_zero-opt_ts (negsuc n) = refl

pub int_or_zero-opt_id : (t : ℤ) → int_or_zero (opt_id t) ≡ t
unfolding int_or_zero opt_id
int_or_zero-opt_id (pos zero) = refl
int_or_zero-opt_id (pos (suc n)) = ground arith
int_or_zero-opt_id (negsuc n) = refl

pub text_or_empty-opt_text : (t : Bytes) → text_or_empty (opt_text t) ≡ t
unfolding text_or_empty opt_text
text_or_empty-opt_text [] = refl
text_or_empty-opt_text (c ∷ t) = refl

pub int_opt-opt_int : (i : Option ℤ) → int_opt (opt_int i) ≡ i
unfolding int_opt opt_int
int_opt-opt_int none = refl
int_opt-opt_int (some i) = refl

pub uuid_opt-opt_uuid : (u : Option Bytes) → uuid_opt (opt_uuid u) ≡ u
unfolding uuid_opt opt_uuid
uuid_opt-opt_uuid none = refl
uuid_opt-opt_uuid (some u) = refl

-- The tests of equal numbers and of equal texts are sound.
pub eqb_ℤ→≡ : (a b : ℤ) → eqb_ℤ a b ≡ true → a ≡ b
eqb_ℤ→≡ (pos m) (pos n) h = ap pos ((==_iff m n).0 h)
eqb_ℤ→≡ (negsuc m) (negsuc n) h = ap negsuc ((==_iff m n).0 h)
eqb_ℤ→≡ (pos m) (negsuc n) h = absurd (false≢true h)
eqb_ℤ→≡ (negsuc m) (pos n) h = absurd (false≢true h)

pub bytes_eq→≡ : (s t : Bytes) → bytes_eq s t ≡ true → s ≡ t
unfolding bytes_eq
bytes_eq→≡ [] [] h = refl
bytes_eq→≡ [] (y ∷ ys) h = absurd (false≢true h)
bytes_eq→≡ (x ∷ xs) [] h = absurd (false≢true h)
bytes_eq→≡ (x ∷ xs) (y ∷ ys) h =
    let (first, rest) = and-split (x == y) (bytes_eq xs ys) h in
    λ i. (==_iff x y).0 first i ∷ bytes_eq→≡ xs ys rest i
