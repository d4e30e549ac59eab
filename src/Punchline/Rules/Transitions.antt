-- ===== src/Punchline/Rules/Transitions.antt =====
-- PL-7 of modules/punchline/src/rules.cpp: the order of the transitions and the standing they need.
use archivum.Base.{
  ◌≡◌, ◌⊎◌, refl, sym, ap, ◌∙◌, arith, Bool, true, false, false≢true, not, ◌&&◌, ◌||◌, Option, none,
  some, [], Bytes, inl, inr,
}
use archivum.Base.Int.{ℤ}
use archivum.Status.{ok, constraint, require, ◌>>=◌, value_or, bind-ok, require-ok}
use archivum.Engine.PageFormat.{bytes_eq}
use archivum.Punchline.Fields.{eqb_ℤ→≡, bytes_eq→≡}
use archivum.Punchline.Reader.{Reader}
use archivum.Punchline.Rules.{
  Standing, contains, holds, is_empty, next_state, same_employee, supervises, supervisor_at,
  approve_allowed, transition_allowed,
}
use archivum.Punchline.Rules.Words.{
  recorded, submitted, approved, released, locked, payroll, supervisor, admin,
}

-- From one of the four first states to the one behind it.
abbrev pub Follows : Bytes → Bytes → Type 0
Follows from to =
    (from ≡ recorded) × (to ≡ submitted)
    ⊎ (from ≡ submitted) × (to ≡ approved)
    ⊎ (from ≡ approved) × (to ≡ released)
    ⊎ (from ≡ released) × (to ≡ locked)

Follows-next : (from to : Bytes) → next_state from ≡ to → is_empty to ≡ false → Follows from to
unfolding next_state
Follows-next from to e f = ground (
  arith,
  bytes_eq→≡ from recorded,
  bytes_eq→≡ from submitted,
  bytes_eq→≡ from approved,
  bytes_eq→≡ from released,
)

in_order :
    (reader : Reader) (employee_id : ℤ) (from to : Bytes) (who : Standing) (at : ℤ)
    → transition_allowed reader employee_id from to who at ≡ ok tt
    → (bytes_eq (next_state from) to ≡ true) × (is_empty to ≡ false)
unfolding transition_allowed
in_order reader employee_id from to who at h = ground arith

-- The supervisor of the employee that is in force at the instant is the caller, who has the role.
abbrev pub IsSupervisor : Reader → ℤ → Standing → ℤ → Type 0
IsSupervisor reader employee_id who at =
    (holds who supervisor ≡ true)
    × ((s : ℤ) × (supervisor_at reader employee_id at ≡ ok (some s)) × (who.employee_id ≡ some s))

-- Equal optional ids are the same id.
same_employee-some :
    (a b : Option ℤ) → same_employee a b ≡ true → (s : ℤ) × (a ≡ some s) × (b ≡ some s)
unfolding same_employee
same_employee-some none b h = absurd (false≢true h)
same_employee-some (some a) none h = absurd (false≢true h)
same_employee-some (some a) (some b) h = (a, refl, ap some (sym (eqb_ℤ→≡ a b h)))

supervises-IsSupervisor :
    (reader : Reader) (employee_id : ℤ) (who : Standing) (at : ℤ)
    → supervises reader employee_id who at ≡ ok true
    → IsSupervisor reader employee_id who at
unfolding supervises
supervises-IsSupervisor reader employee_id who at h =
    let (sup, found, same) =
      bind-ok (supervisor_at reader employee_id at) (λ sup. ok (same_employee sup who.employee_id))
        true chain in
    let (s, is_sup, is_who) = same_employee-some sup who.employee_id (ap (value_or true) same) in
    (role, (s, found ∙ ap ok is_sup, is_who))
  where
    role : holds who supervisor ≡ true
    role = ground arith

    chain :
        (supervisor_at reader employee_id at >>= λ sup. ok (same_employee sup who.employee_id))
        ≡ ok true
    chain = ground arith

-- Only the supervisor in force, or payroll with a reason, approves: whoever is allowed a transition to
-- `approved` has the role of supervisor and is the supervisor of the employee in force at the instant,
-- or has the role of payroll and gives a reason for the override.
pub transition_allowed-approved :
    (reader : Reader) (employee_id : ℤ) (from : Bytes) (who : Standing) (at : ℤ)
    → transition_allowed reader employee_id from approved who at ≡ ok tt
    → IsSupervisor reader employee_id who at
      ⊎ ((holds who payroll ≡ true) × (is_empty who.override_reason ≡ false))
unfolding transition_allowed approve_allowed bytes_eq
transition_allowed-approved reader employee_id from who at h =
    let (s, sup, rest) =
      bind-ok (supervises reader employee_id who at) (λ s. require (allowed s) constraint) tt
        approve in
    by_standing s sup (require-ok (allowed s) constraint rest)
  where
    allowed : Bool → Bool
    allowed s = s || holds who payroll && not (is_empty who.override_reason)

    approve : (supervises reader employee_id who at >>= λ s. require (allowed s) constraint) ≡ ok tt
    approve = ground arith

    by_standing :
        (s : Bool)
        → supervises reader employee_id who at ≡ ok s
        → allowed s ≡ true
        → IsSupervisor reader employee_id who at
          ⊎ ((holds who payroll ≡ true) × (is_empty who.override_reason ≡ false))
    by_standing true sup ok_s = inl (supervises-IsSupervisor reader employee_id who at sup)
    by_standing false sup ok_s = inr (ground arith)

same_employee_lem : (a : Option ℤ) (b : ℤ) → same_employee a (some b) ≡ true → a ≡ some b
unfolding same_employee
same_employee_lem none b h = absurd (false≢true h)
same_employee_lem (some a) b h = ap some (eqb_ℤ→≡ a b h)

plain_submits :
    (reader : Reader) (employee_id : ℤ) (from to : Bytes) (who : Standing) (at : ℤ)
    → who.roles ≡ []
    → transition_allowed reader employee_id from to who at ≡ ok tt
    → (to ≡ submitted) × (who.employee_id ≡ some employee_id)
unfolding transition_allowed supervises contains
plain_submits reader employee_id from to who at none_held h = ground (
  arith,
  ap (contains payroll) none_held,
  ap (contains admin) none_held,
  ap (contains supervisor) none_held,
  same_employee_lem who.employee_id employee_id,
  bytes_eq→≡ to submitted,
)

-- Transitions are in order only: an allowed one goes from a state to the one behind it.
pub transition_allowed-Follows :
    (reader : Reader) (employee_id : ℤ) (from to : Bytes) (who : Standing) (at : ℤ)
    → transition_allowed reader employee_id from to who at ≡ ok tt
    → Follows from to
transition_allowed-Follows reader employee_id from to who at h =
    let (next, some_state) = in_order reader employee_id from to who at h in
    Follows-next from to (bytes_eq→≡ (next_state from) to next) some_state

from_recorded : (from to : Bytes) → Follows from to → to ≡ submitted → from ≡ recorded
from_recorded from to f s = ground (arith, f, s)

-- A caller without a role is allowed one transition only, from recorded to submitted, and this for his own
-- entries only.
pub transition_allowed-plain :
    (reader : Reader) (employee_id : ℤ) (from to : Bytes) (who : Standing) (at : ℤ)
    → who.roles ≡ []
    → transition_allowed reader employee_id from to who at ≡ ok tt
    → (from ≡ recorded) × (to ≡ submitted) × (who.employee_id ≡ some employee_id)
transition_allowed-plain reader employee_id from to who at none_held h =
    let (submits, own) = plain_submits reader employee_id from to who at none_held h in
    (
      from_recorded from to (transition_allowed-Follows reader employee_id from to who at h)
          submits,
      submits,
      own,
    )
