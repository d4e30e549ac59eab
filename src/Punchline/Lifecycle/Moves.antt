-- ===== src/Punchline/Lifecycle/Moves.antt =====
-- The loops of modules/punchline/src/lifecycle.cpp against the lists they stand for: which entries move,
-- and the writes that move them.
use archivum.Base.{
  ℕ, suc, ◌+◌, ◌≡◌, ap, ◌∙◌, arith, if◌then◌else◌, Bool, true, false, not, ◌&&◌, ◌||◌, List, [],
  ◌∷◌, Bytes, All, length, map, Bool-cases, inl, inr,
}
use archivum.Base.Int.{ltb_ℤ}
use archivum.Status.{Result, ok, ◌>>=◌, value_or, bind_assoc}
use archivum.Engine.Types.{Row}
use archivum.Engine.PageFormat.{bytes_eq}
use archivum.Punchline.Reader.{Table, time_entries}
use archivum.Punchline.Recorder.{Recorder}
use archivum.Punchline.Data.TimeEntry
use archivum.Punchline.Data.TimeEntry.{TimeEntry}
use archivum.Punchline.Lifecycle.{rank, is_current, count_movable, moved_entry, move_entries}

-- The current entries that are in a state.
unfoldable pub movable : Bytes → List TimeEntry → List TimeEntry
movable from [] = []
movable from (e ∷ es) =
    let later = movable from es in
    if is_current e && bytes_eq e.state from then e ∷ later else later

-- A current entry that has not reached a state.
abbrev pub is_behind : Bytes → TimeEntry → Bool
is_behind from e = is_current e && ltb_ℤ (rank e.state) (rank from)

-- The loop that counts succeeds only if no entry is behind, and then it counts the movable ones.
pub count_movable-ok :
    (from : Bytes) (es : List TimeEntry) (n m : ℕ)
    → count_movable from es n ≡ ok m
    → (m ≡ n + length (movable from es)) × All (λ e. is_behind from e ≡ false) es
unfolding count_movable movable
count_movable-ok from [] n m h = (omega (arith, ap (value_or 0) h), tt)
count_movable-ok from (e ∷ es) n m h =
    ground (arith, count_movable-ok from es n m, count_movable-ok from es (n + 1) m)

module _ {S : Type 0} (rec : Recorder S) where
  -- Updates of one table in a row.
  unfoldable pub update_all : Table → List Row → S → Result S
  update_all t [] s = ok s
  update_all t (r ∷ rs) s = rec.update t r s >>= update_all t rs

  -- The rows that `move_entries` writes.
  abbrev pub moved_rows : Bytes → Bytes → List TimeEntry → List Row
  moved_rows from to es = map (λ e. TimeEntry.to_row (moved_entry rec to e)) (movable from es)

  pub move_entries-lem :
      (from to : Bytes) (es : List TimeEntry) (n : ℕ) (s : S)
      → move_entries rec from to es n s ≡ (
          update_all time_entries (moved_rows from to es) s >>= λ s'.
          ok (n + length (movable from es), s'))
  unfolding move_entries update_all movable
  move_entries-lem from to [] n s = ap (λ k. ok (k, s)) (omega arith)
  move_entries-lem from to (e ∷ es) n s = elim (Bool-cases moves) [
    | inl does ↦ first does (behind (λ s'. move_entries-lem from to es (n + 1) s'))
    | inr stays ↦ rw (stay_not stays, stays) (move_entries-lem from to es n s)
  ]
    where
      moves : Bool
      moves = is_current e && bytes_eq e.state from

      row : Row
      row = TimeEntry.to_row (moved_entry rec to e)

      stay : moves ≡ true → (not (is_current e) || not (bytes_eq e.state from)) ≡ false
      stay h = ground arith

      stay_not : moves ≡ false → (not (is_current e) || not (bytes_eq e.state from)) ≡ true
      stay_not h = ground arith

      first :
          moves ≡ true
          → (rec.update time_entries row s >>= λ s'. move_entries rec from to es (n + 1) s') ≡ (
              (rec.update time_entries row s >>= update_all time_entries (moved_rows from to es))
              >>= λ s'. ok (n + suc (length (movable from es)), s'))
          → move_entries rec from to (e ∷ es) n s ≡ (
              update_all time_entries (moved_rows from to (e ∷ es)) s >>= λ s'.
              ok (n + length (movable from (e ∷ es)), s'))
      first does h = rw (stay does, does) h

      add : n + 1 + length (movable from es) ≡ n + suc (length (movable from es))
      add = omega arith

      behind :
          ((s' : S)
            → move_entries rec from to es (n + 1) s' ≡ (
                update_all time_entries (moved_rows from to es) s' >>= λ s''.
                ok (n + 1 + length (movable from es), s'')))
          → (rec.update time_entries row s >>= λ s'. move_entries rec from to es (n + 1) s') ≡ (
              (rec.update time_entries row s >>= update_all time_entries (moved_rows from to es))
              >>= λ s'. ok (n + suc (length (movable from es)), s'))
      behind later =
          (λ i. rec.update time_entries row s >>= λ s'. later s' i)
          ∙ bind_assoc (rec.update time_entries row s)
              (update_all time_entries (moved_rows from to es))
              (λ s'. ok (n + 1 + length (movable from es), s'))
          ∙ (λ i.
              (rec.update time_entries row s >>= update_all time_entries (moved_rows from to es))
              >>= λ s'. ok (add i, s'))
