-- ===== src/Vfs.antt =====
-- engine/include/archivum/vfs.h: one file behind the virtual filesystem, with the contents semantics
-- of engine/testing/src/mem_vfs.cpp, and the operating system's refusals as a list of outcomes.
-- Each operation takes the next outcome; with no outcome left every operation succeeds.
use archivum.Base.{
  ℕ, ◌+◌, ◌-◌, Bool, true, Option, none, some, List, [], ◌∷◌, ◌++◌, Bytes, length, take, drop,
  replicate,
}
use archivum.Status.{ErrorCode, Result, ok, err}

-- A refusal: its code, and what a refused write or truncation left in the file, which may be anything.
pub record Fault : Type 0 where
  pub code : ErrorCode
  pub left : Bytes

pub record Disk : Type 0 where
  pub present : Bool
  pub content : Bytes
  pub outcomes : List (Option Fault)

abbrev pub Io {ℓ} : Type ℓ → Type ℓ
Io A = Disk → Result A × Disk

abbrev pub continue {ℓ κ} : {A : Type ℓ} {B : Type κ} → Result A → (A → Io B) → Io B
continue (ok a) f d = f a d
continue (err e) f d = (err e, d)

infixl 5 ◌>>=◌ ◌>>◌
abbrev pub ◌>>=◌ {ℓ κ} : {A : Type ℓ} {B : Type κ} → Io A → (A → Io B) → Io B
◌>>=◌ m f d = let (r, d') = m d in continue r f d'

abbrev pub ◌>>◌ {ℓ} : {B : Type ℓ} → Io (Unit {0}) → Io B → Io B
m >> k = m >>= λ _. k

abbrev pub pure {ℓ} : {A : Type ℓ} → A → Io A
pure a d = (ok a, d)

-- A status that is returned with no operation.
abbrev pub fail {ℓ} : {A : Type ℓ} → ErrorCode → Io A
fail e d = (err e, d)

-- An operation that changes the file to `after` when it is not refused.
attempt_from : List (Option Fault) → Bytes → Io (Unit {0})
attempt_from [] after d = (ok tt, record d { content = after })
attempt_from (none ∷ rest) after d = (ok tt, record d { content = after; outcomes = rest })
attempt_from (some f ∷ rest) after d = (err f.code, record d { content = f.left; outcomes = rest })

-- An operation that only reads: `value` when it is not refused, and the file stays.
inspect_from {ℓ} : {A : Type ℓ} → List (Option Fault) → A → Io A
inspect_from [] value d = (ok value, d)
inspect_from (none ∷ rest) value d = (ok value, record d { outcomes = rest })
inspect_from (some f ∷ rest) value d = (err f.code, record d { outcomes = rest })

-- Zero-fills when it extends.
unfoldable pub resized : ℕ → Bytes → Bytes
resized n content = take n (content ++ replicate (n - length content) 0)

unfoldable pub overwritten : ℕ → Bytes → Bytes → Bytes
unfolding resized
overwritten offset bytes content =
    resized offset content ++ (bytes ++ drop (offset + length bytes) content)

-- At most `n` bytes; fewer only at the end of the file.
unfoldable pub read : ℕ → ℕ → Io Bytes
unfolding inspect_from
read offset n d = inspect_from d.outcomes (take n (drop offset d.content)) d

unfoldable pub write : ℕ → Bytes → Io (Unit {0})
unfolding attempt_from
write offset bytes d = attempt_from d.outcomes (overwritten offset bytes d.content) d

unfoldable pub truncate : ℕ → Io (Unit {0})
unfolding attempt_from
truncate n d = attempt_from d.outcomes (resized n d.content) d

unfoldable pub size : Io ℕ
unfolding inspect_from
size d = inspect_from d.outcomes (length d.content) d

unfoldable pub sync : Io (Unit {0})
unfolding attempt_from
sync d = attempt_from d.outcomes d.content d

unfoldable pub sync_directory : Io (Unit {0})
unfolding inspect_from
sync_directory d = inspect_from d.outcomes tt d

unfoldable pub exists : Io Bool
unfolding inspect_from
exists d = inspect_from d.outcomes d.present d

-- `Vfs::open` with `write` and `create` set.
unfoldable pub open_file : Io (Unit {0})
unfolding inspect_from
open_file d = let (r, d') = inspect_from d.outcomes tt d in (r, record d' { present = true })

-- `Vfs::open` with `truncate` set as well.
unfoldable pub open_truncated : Io (Unit {0})
unfolding attempt_from
open_truncated d = let (r, d') = attempt_from d.outcomes [] d in (r, record d' { present = true })

-- `File::close`
unfoldable pub close_file : Io (Unit {0})
unfolding inspect_from
close_file d = inspect_from d.outcomes tt d
