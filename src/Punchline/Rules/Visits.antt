-- ===== src/Punchline/Rules/Visits.antt =====
-- What the scans of modules/punchline/src/rules.cpp establish when their visitor never stops them.
use archivum.Base.{ℕ, ◌+◌, ◌≡◌, refl, arith, if◌then◌else◌, Bool, not, Option, none, List, [], ◌∷◌}
use archivum.Base.Int.{ℤ}
use archivum.Status.{Result, Status, ok, constraint, require, ◌>>=◌}
use archivum.Engine.Types.{Row, bool_number}
use archivum.Punchline.Fields.{eqb_ℤ, column, as_int64}
use archivum.Punchline.Reader.{Scan, first_row, visit}
use archivum.Punchline.Rules.{is_some}

-- How many rows satisfy a test.
abbrev pub count : (Row → Bool) → List Row → ℕ
count test [] = 0
count test (r ∷ rs) = bool_number (test r) + count test rs

-- The rows but that of an id.
unfoldable pub without : ℤ → List Row → List Row
unfolding as_int64
without except [] = []
without except (r ∷ rs) =
    let others = without except rs in
    if eqb_ℤ (as_int64 (column r 0)) except then others else r ∷ others

-- The end of the two rules that refuse when their scan finds a row.
abbrev pub clear : Result (Option Row) → Status
clear found = found >>= λ f. require (not (is_some f)) constraint

-- Such a rule passes only if no row that the scan meets satisfies the test.
pub clear-visit :
    (test : Row → Bool) (s : Scan) → clear (visit test s) ≡ ok tt → first_row test s.rows ≡ none
unfolding visit
clear-visit test s h = ground arith

-- A whole scan in which no row satisfies the test passes the rule.
pub visit-clear :
    (test : Row → Bool) (s : Scan)
    → s.ending ≡ ok tt
    → first_row test s.rows ≡ none
    → clear (visit test s) ≡ ok tt
unfolding visit
visit-clear test s e h = ground arith

pub first_row-count :
    (test : Row → Bool) (rs : List Row) → first_row test rs ≡ none → count test rs ≡ 0
unfolding first_row
first_row-count test [] h = refl
first_row-count test (r ∷ rs) h = ground (arith, first_row-count test rs)

pub count-first_row :
    (test : Row → Bool) (rs : List Row) → count test rs ≡ 0 → first_row test rs ≡ none
unfolding first_row
count-first_row test [] h = refl
count-first_row test (r ∷ rs) h = ground (arith, count-first_row test rs)
