-- ===== src/Punchline/Reader.antt =====
-- engine/include/archivum/engine/store.h, as modules/punchline uses it: the part of `Reader` that the
-- rules call. The store itself is an argument: it answers a look-up of a key and a scan of an index.
use archivum.Base.{if◌then◌else◌, Bool, Option, none, some, List, [], ◌∷◌}
use archivum.Status.{Result, Status, ok, ◌>>=◌}
use archivum.Engine.Types.{Row}

pub data Table : Type 0 where
  devices supervisor_assignments pay_periods time_entries shifts approvals : Table

pub data Index : Type 0 where
  devices_employee supervisor_assignments_employee time_entries_period shifts_period : Index

-- What a scan meets in order: its rows, and how it ends if no visitor stops it.
pub record Scan : Type 0 where
  pub rows : List Row
  pub ending : Status

-- `get` by the primary key, and `scan` between a lower and an upper bound that are the same row.
pub record Reader : Type 0 where
  pub get : Table → Row → Result (Option Row)
  pub scan : Index → Row → Scan

-- The first row of which a test holds.
unfoldable pub first_row : (Row → Bool) → List Row → Option Row
first_row test [] = none
first_row test (r ∷ rs) = if test r then some r else first_row test rs

-- A scan whose visitor stops at the first row of which the test holds: an error behind that row is not
-- met.
unfoldable pub visit : (Row → Bool) → Scan → Result (Option Row)
visit test s = elim (first_row test s.rows) [
  | some r ↦ ok (some r)
  | none ↦ s.ending >>= λ _. ok none
]
