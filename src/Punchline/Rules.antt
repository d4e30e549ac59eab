-- ===== src/Punchline/Rules.antt =====
-- modules/punchline/src/rules.cpp: the rules that relate two rows, or a row and the caller. Each gives
-- `constraint` where its rule is broken. States, kinds and roles are texts, as in the source.
pub mod Words
mod Visits
mod Supervisors
mod Transitions
mod Examples
use archivum.Base.{
  if◌then◌else◌, Bool, true, false, not, ◌&&◌, ◌||◌, Option, none, some, List, [], ◌∷◌, Bytes, map,
}
use archivum.Base.Int.{ℤ, pos, ltb_ℤ, leb_ℤ}
use archivum.Status.{Result, Status, ok, err, constraint, require, ◌>>=◌, ◌>>◌}
use archivum.Engine.Types.{Value, Row, is_null}
use archivum.Engine.PageFormat.{bytes_eq}
use archivum.Punchline.Fields.{eqb_ℤ, column, as_int64, int_or_zero}
use archivum.Punchline.Reader.{
  Table, Index, Scan, Reader, visit, devices, pay_periods, time_entries, devices_employee,
  supervisor_assignments_employee,
}
use archivum.Punchline.Data.Device
use archivum.Punchline.Data.PayPeriod
use archivum.Punchline.Data.TimeEntry
use archivum.Punchline.Data.Shift
use Words.{recorded, submitted, approved, released, locked, payroll, supervisor, admin, out}

pub record Standing : Type 0 where
  pub roles : List Bytes
  pub employee_id : Option ℤ
  pub override_reason : Bytes

unfoldable pub contains : Bytes → List Bytes → Bool
contains role [] = false
contains role (r ∷ rs) = bytes_eq r role || contains role rs

unfoldable pub holds : Standing → Bytes → Bool
holds who role = contains role who.roles

abbrev pub is_some {ℓ} : {A : Type ℓ} → Option A → Bool
is_some none = false
is_some (some a) = true

abbrev pub key : ℤ → Row
key i = Value.integer i ∷ []

-- PL-1: the visitor of `one_active_device`.
unfoldable pub blocks : ℤ → Row → Bool
unfolding as_int64
blocks except r = if eqb_ℤ (as_int64 (column r 0)) except then false else is_null (column r 7)

unfoldable pub one_active_device : Reader → ℤ → ℤ → Status
one_active_device reader employee_id except = do
  active ← visit (blocks except) (reader.scan devices_employee (key employee_id))
  require (not (is_some active)) constraint

-- PL-2: half-open on both sides, and 0 is open.
unfoldable pub overlaps : ℤ → ℤ → ℤ → Row → Bool
unfolding as_int64
overlaps effective_from effective_to except r =
    let from = as_int64 (column r 3) in
    let to = int_or_zero (column r 4) in
    let before = not (eqb_ℤ effective_to (pos 0)) && leb_ℤ effective_to from in
    let after = not (eqb_ℤ to (pos 0)) && leb_ℤ to effective_from in
    if eqb_ℤ (as_int64 (column r 0)) except then false else not before && not after

unfoldable pub supervisor_assignment_valid : Reader → ℤ → ℤ → ℤ → ℤ → ℤ → Status
supervisor_assignment_valid reader employee_id supervisor_id effective_from effective_to except = do
  require (not (eqb_ℤ employee_id supervisor_id)) constraint
  require (not (not (eqb_ℤ effective_to (pos 0)) && leb_ℤ effective_to effective_from)) constraint
  overlap ←
      visit (overlaps effective_from effective_to except)
        (reader.scan supervisor_assignments_employee (key employee_id))
  require (not (is_some overlap)) constraint

unfoldable pub in_force : ℤ → Row → Bool
unfolding as_int64
in_force at r =
    let from = as_int64 (column r 3) in
    let to = int_or_zero (column r 4) in leb_ℤ from at && (eqb_ℤ to (pos 0) || ltb_ℤ at to)

abbrev pub supervisor_of : Option Row → Option ℤ
supervisor_of none = none
supervisor_of (some r) = some (as_int64 (column r 2))

unfoldable pub supervisor_at : Reader → ℤ → ℤ → Result (Option ℤ)
supervisor_at reader employee_id at = do
  found ← visit (in_force at) (reader.scan supervisor_assignments_employee (key employee_id))
  ok (supervisor_of found)

-- The row of a primary key, which the rule needs to exist.
abbrev pub present : Option Row → Result Row
present none = err constraint
present (some r) = ok r

-- PL-3
unfoldable pub entry_period_valid : Reader → ℤ → ℤ → Status
entry_period_valid reader local_day period_id = if eqb_ℤ period_id (pos 0) then ok tt else do
  found ← reader.get pay_periods (key period_id)
  row ← present found
  let p = PayPeriod.from_row row
  require (not (ltb_ℤ local_day p.start_day || ltb_ℤ p.end_day local_day)) constraint

abbrev pub is_empty : Bytes → Bool
is_empty [] = true
is_empty (c ∷ cs) = false

-- PL-4
unfoldable pub correction_valid : Reader → ℤ → ℤ → Bytes → Status
correction_valid reader original employee_id reason = do
  require (not (is_empty reason)) constraint
  found ← reader.get time_entries (key original)
  row ← present found
  let e = TimeEntry.from_row row
  require (eqb_ℤ e.employee_id employee_id) constraint

-- PL-5
unfoldable pub device_attested_valid : Reader → ℤ → ℤ → Status
device_attested_valid reader device_id receipt_time = do
  found ← reader.get devices (key device_id)
  row ← present found
  let d = Device.from_row row
  require (not (not (eqb_ℤ d.revoked_at (pos 0)) && leb_ℤ d.revoked_at receipt_time)) constraint

-- PL-6
unfoldable pub pair_out : Shift.Shift → TimeEntry.TimeEntry → Status
pair_out shift punch = do
  require (bytes_eq punch.kind out) constraint
  require (eqb_ℤ punch.employee_id shift.employee_id) constraint
  require (eqb_ℤ punch.device_id shift.device_id) constraint
  require (not (leb_ℤ punch.device_time shift.in_time)) constraint

-- PL-7: the empty text behind `locked` and behind anything else.
unfoldable pub next_state : Bytes → Bytes
next_state from =
    if bytes_eq from recorded
    then submitted
    else if bytes_eq from submitted
    then approved
    else if bytes_eq from approved
    then released
    else if bytes_eq from released
    then locked
    else []

-- `who.employee_id && *who.employee_id == employee_id`, of two optional ids.
unfoldable pub same_employee : Option ℤ → Option ℤ → Bool
same_employee none b = false
same_employee (some a) none = false
same_employee (some a) (some b) = eqb_ℤ a b

-- The test of the supervisor in force; an error of the store ends the transition.
unfoldable pub supervises : Reader → ℤ → Standing → ℤ → Result Bool
unfolding holds
supervises reader employee_id who at =
    if holds who supervisor && is_some who.employee_id
    then (do sup ← supervisor_at reader employee_id at; ok (same_employee sup who.employee_id))
    else ok false

abbrev pub refuse : Status
refuse = err constraint

unfoldable pub submit_allowed : Reader → ℤ → Standing → ℤ → Status
unfolding holds
submit_allowed reader employee_id who at =
    if same_employee who.employee_id (some employee_id)
    then ok tt
    else if holds who payroll
    then ok tt
    else (do s ← supervises reader employee_id who at; require s constraint)

unfoldable pub approve_allowed : Reader → ℤ → Standing → ℤ → Status
unfolding holds
approve_allowed reader employee_id who at = do
  s ← supervises reader employee_id who at
  require (s || holds who payroll && not (is_empty who.override_reason)) constraint

unfoldable pub transition_allowed : Reader → ℤ → Bytes → Bytes → Standing → ℤ → Status
unfolding holds submit_allowed approve_allowed
transition_allowed reader employee_id from to who at =
    if not (bytes_eq (next_state from) to) || is_empty to
    then refuse
    else if bytes_eq to submitted
    then submit_allowed reader employee_id who at
    else if bytes_eq to approved
    then approve_allowed reader employee_id who at
    else if bytes_eq to released
    then require (holds who payroll) constraint
    else if bytes_eq to locked
    then require (holds who payroll || holds who admin) constraint
    else refuse
