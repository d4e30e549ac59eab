-- ===== src/Punchline/Rules/Supervisors.antt =====
-- PL-1 and PL-2 of modules/punchline/src/rules.cpp: what a passed rule says of the table.
use archivum.Base.{
  ◌≤◌, ◌≡◌, ◌↔◌, refl, sym, ap, ◌∙◌, arith, Bool, true, false, not, ◌&&◌, ◌||◌, none, List, [], ◌∷◌,
  Bool-cases, inl, inr,
}
use archivum.Base.Int.{ℤ, pos, leb_ℤ, ltb_ℤ}
use archivum.Status.{ok}
use archivum.Engine.Types.{Row, bool_number, is_null}
use archivum.Punchline.Fields.{eqb_ℤ, column, as_int64, int_or_zero, int_or_zero-opt_ts}
use archivum.Punchline.Reader.{
  Scan, Reader, first_row, visit, devices_employee, supervisor_assignments_employee,
}
use archivum.Punchline.Data.SupervisorAssignment.{SupervisorAssignment, to_row}
use archivum.Punchline.Rules.{
  key, blocks, one_active_device, overlaps, supervisor_assignment_valid, in_force,
}
use archivum.Punchline.Rules.Visits.{
  count, without, clear, clear-visit, visit-clear, first_row-count, count-first_row,
}

-- The rows that an index scan gives of an employee.
abbrev pub devices_of : Reader → ℤ → Scan
devices_of reader employee_id = reader.scan devices_employee (key employee_id)

abbrev pub assignments_of : Reader → ℤ → Scan
assignments_of reader employee_id = reader.scan supervisor_assignments_employee (key employee_id)

-- A device that is not revoked.
abbrev pub is_active : Row → Bool
is_active r = is_null (column r 7)

count-blocks :
    (except : ℤ) (rs : List Row) → count (blocks except) rs ≡ count is_active (without except rs)
unfolding blocks without
count-blocks except [] = refl
count-blocks except (r ∷ rs) = ground (arith, count-blocks except rs)

-- Where the store reads the whole index, `one_active_device` passes exactly if no device of the employee
-- but the excepted one is active.
pub one_active_device_iff :
    (reader : Reader) (employee_id except : ℤ)
    → (devices_of reader employee_id).ending ≡ ok tt
    → (one_active_device reader employee_id except ≡ ok tt)
      ↔ (count is_active (without except (devices_of reader employee_id).rows) ≡ 0)
unfolding one_active_device
one_active_device_iff reader employee_id except whole = (
  λ h.
      sym (count-blocks except rows)
      ∙ first_row-count (blocks except) rows
          (clear-visit (blocks except) (devices_of reader employee_id) h),
  λ h.
      visit-clear (blocks except) (devices_of reader employee_id) whole
        (count-first_row (blocks except) rows (count-blocks except rows ∙ h)),
)
  where
    rows : List Row
    rows = (devices_of reader employee_id).rows

-- Two half-open ranges that do not overlap, 0 being open, have no instant in common.
apart :
    (from to from' to' at : ℤ)
    → (leb_ℤ from at && (eqb_ℤ to (pos 0) || ltb_ℤ at to)) ≡ true
    → (not (not (eqb_ℤ to (pos 0)) && leb_ℤ to from')
        && not (not (eqb_ℤ to' (pos 0)) && leb_ℤ to' from))
      ≡ false
    → (leb_ℤ from' at && (eqb_ℤ to' (pos 0) || ltb_ℤ at to')) ≡ false
apart from to from' to' at covered clear = ground arith

-- The assignment is in force at an instant.
abbrev pub covers : SupervisorAssignment → ℤ → Bool
covers a at = in_force at (to_row a)

covers-row :
    (a : SupervisorAssignment) (at : ℤ)
    → covers a at
      ≡ (leb_ℤ a.effective_from at && (eqb_ℤ a.effective_to (pos 0) || ltb_ℤ at a.effective_to))
unfolding in_force to_row
covers-row a at = rw (int_or_zero-opt_ts a.effective_to)

-- If no row but the excepted one overlaps, none of the others is in force in the range.
count-apart :
    (from to except at : ℤ) (rs : List Row)
    → (leb_ℤ from at && (eqb_ℤ to (pos 0) || ltb_ℤ at to)) ≡ true
    → first_row (overlaps from to except) rs ≡ none
    → count (in_force at) (without except rs) ≡ 0
unfolding first_row overlaps without in_force
count-apart from to except at [] covered h = refl
count-apart from to except at (r ∷ rs) covered h = ground (
  arith,
  count-apart from to except at rs covered,
  apart from to (as_int64 (column r 3)) (int_or_zero (column r 4)) at covered,
)

overlap-clear :
    (reader : Reader) (employee_id supervisor_id from to except : ℤ)
    → supervisor_assignment_valid reader employee_id supervisor_id from to except ≡ ok tt
    → first_row (overlaps from to except) (assignments_of reader employee_id).rows ≡ none
unfolding supervisor_assignment_valid visit
overlap-clear reader employee_id supervisor_id from to except h = ground arith

-- A valid assignment keeps the employee to one supervisor at a time: where at most one of the other
-- assignments is in force at an instant, at most one is with the new assignment among them.
pub supervisor_assignment_valid-exclusive :
    (reader : Reader) (a : SupervisorAssignment) (except at : ℤ)
    → supervisor_assignment_valid reader a.employee_id a.supervisor_employee_id a.effective_from
        a.effective_to except
      ≡ ok tt
    → count (in_force at) (without except (assignments_of reader a.employee_id).rows) ≤ 1
    → count (in_force at) (to_row a ∷ without except (assignments_of reader a.employee_id).rows) ≤ 1
supervisor_assignment_valid-exclusive reader a except at valid one =
    elim (Bool-cases (covers a at)) [
      | inl covered ↦ omega (
        arith,
        ap bool_number covered,
        count-apart a.effective_from a.effective_to except at rows (sym (covers-row a at) ∙ covered)
            (overlap-clear reader a.employee_id a.supervisor_employee_id a.effective_from
              a.effective_to except valid),
      )
      | inr idle ↦ omega (arith, ap bool_number idle, one)
    ]
  where
    rows : List Row
    rows = (assignments_of reader a.employee_id).rows
