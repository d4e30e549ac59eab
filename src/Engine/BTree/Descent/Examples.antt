-- ===== src/Engine/BTree/Descent/Examples.antt =====
-- A root with one separator and the leaf to its right, read over pages in memory.
use archivum.Base.{ℕ, ◌==◌, if◌then◌else◌, [], ◌∷◌, Bytes}
use archivum.Status.{ok, err, io_error}
use archivum.Engine.BTree.Pages.{Pages}

abbrev root : Bytes
root =
    2 ∷ 0 ∷ 1 ∷ 0 ∷ 26 ∷ 0 ∷ 0 ∷ 0 ∷ 5 ∷ 0 ∷ 0 ∷ 0 ∷ 0 ∷ 0 ∷ 0 ∷ 0 ∷ 0 ∷ 0 ∷ 0 ∷ 0 ∷ 0 ∷ 0 ∷ 0 ∷ 0
    ∷ 26 ∷ 0 ∷ 1 ∷ 0 ∷ 4 ∷ 0 ∷ 0 ∷ 0 ∷ 0 ∷ 0 ∷ 0 ∷ 0 ∷ 77 ∷ []

abbrev leaf : Bytes
leaf =
    1 ∷ 0 ∷ 1 ∷ 0 ∷ 26 ∷ 0 ∷ 0 ∷ 0 ∷ 0 ∷ 0 ∷ 0 ∷ 0 ∷ 0 ∷ 0 ∷ 0 ∷ 0 ∷ 0 ∷ 0 ∷ 0 ∷ 0 ∷ 0 ∷ 0 ∷ 0 ∷ 0
    ∷ 26 ∷ 0 ∷ 1 ∷ 0 ∷ 0 ∷ 2 ∷ 0 ∷ 0 ∷ 0 ∷ 80 ∷ 7 ∷ 9 ∷ []

-- The state is not used: the pages do not change.
abbrev two_pages : Pages ℕ
two_pages = record {
  read_page = λ p s. if p == 3 then ok root else if p == 5 then ok leaf else err io_error;
  write_page = λ p bs s. (err io_error, s);
  allocate_page = λ s. (err io_error, s);
  free_page = λ p s. (err io_error, s);
}
