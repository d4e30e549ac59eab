-- ===== src/Punchline/Queries.antt =====
-- modules/punchline/src/data.cpp: the reads of the lifecycle.
use archivum.Base.{if◌then◌else◌, Bool, not, none, some, List, [], ◌∷◌, map}
use archivum.Base.Int.{ℤ, ltb_ℤ}
use archivum.Status.{Result, ok, err, not_found, ◌>>=◌}
use archivum.Engine.Types.{Value, Row}
use archivum.Punchline.Fields.{eqb_ℤ}
use archivum.Punchline.Reader.{Reader, Scan, pay_periods, time_entries_period, shifts_period}
use archivum.Punchline.Data.PayPeriod
use archivum.Punchline.Data.PayPeriod.{PayPeriod}
use archivum.Punchline.Data.TimeEntry
use archivum.Punchline.Data.TimeEntry.{TimeEntry}
use archivum.Punchline.Data.Shift
use archivum.Punchline.Data.Shift.{Shift}
use archivum.Punchline.Rules.{key}

-- The rows of a whole scan, or its error.
abbrev pub all_rows : Scan → Result (List Row)
all_rows s = s.ending >>= λ _. ok s.rows

-- `std::sort` with a strict order: by insertion.
unfoldable pub insert_by {ℓ} : {A : Type ℓ} → (A → A → Bool) → A → List A → List A
insert_by before a [] = a ∷ []
insert_by before a (b ∷ bs) = if before a b then a ∷ b ∷ bs else b ∷ insert_by before a bs

unfoldable pub sort_by {ℓ} : {A : Type ℓ} → (A → A → Bool) → List A → List A
sort_by before [] = []
sort_by before (a ∷ rest) = insert_by before a (sort_by before rest)

abbrev pub key2 : ℤ → ℤ → Row
key2 a b = Value.integer a ∷ Value.integer b ∷ []

abbrev pub entry_before : TimeEntry → TimeEntry → Bool
entry_before a b =
    if not (eqb_ℤ a.device_time b.device_time)
    then ltb_ℤ a.device_time b.device_time
    else ltb_ℤ a.id b.id

unfoldable pub entries_in_period : Reader → ℤ → ℤ → Result (List TimeEntry)
entries_in_period reader period_id employee_id = do
  rows ← all_rows (reader.scan time_entries_period (key2 period_id employee_id))
  ok (sort_by entry_before (map TimeEntry.from_row rows))

unfoldable pub shifts_in_period : Reader → ℤ → ℤ → Result (List Shift)
shifts_in_period reader period_id employee_id = do
  rows ← all_rows (reader.scan shifts_period (key2 period_id employee_id))
  ok (sort_by (λ a b. ltb_ℤ a.in_time b.in_time) (map Shift.from_row rows))

abbrev pub period_of : Reader → ℤ → Result PayPeriod
period_of reader period_id = do
  found ← reader.get pay_periods (key period_id)
  elim found [ none ↦ err not_found | some row ↦ ok (PayPeriod.from_row row) ]
