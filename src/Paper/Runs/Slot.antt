-- ===== src/Paper/Runs/Slot.antt =====
-- What the transitions keep of the row of each run.
use text.Mathlib.Text.{◌==◌ as str_eq}
use text.Mathlib.TextEquality.{eq_iff}
use aitrading.Common.{
  ℕ, Bool, true, false, ◌&&◌, ◌||◌, not, List, [], ◌∷◌, Option, none, some, String, if◌then◌else◌,
  ◌==◌, ◌≡◌, refl, sym, subst, arith, Bool-cases, inl, inr,
}
use aitrading.Common.Dict.{Dict, lookup, insert, lookup-insert_self, lookup-insert_ne}
use aitrading.Paper.Runs.{
  running, PaperRunRow, RunRequest, RunResult, moved, invalid_transition, compare_and_swap_failed,
  allowed, is_terminal, slot_of, same_status, updated_run, swapped_run, transition_paper_run,
}

abbrev is_present : Option ℕ → Bool
is_present none = false
is_present (some _) = true

-- The row holds the slot of the one active run exactly while its status is active, has an end exactly when its
-- status is final, and a start if it is running.
unfoldable pub IsTimed : Option PaperRunRow → Type 0
IsTimed none = Unit
IsTimed (some row) =
    (row.active_slot ≡ slot_of row.status)
    × (is_present row.ended_at ≡ is_terminal row.status)
    × ((not (same_status row.status running) || is_present row.started_at) ≡ true)

abbrev pub AreTimed : Dict PaperRunRow → Type 0
AreTimed runs = (id : String) → IsTimed (lookup id runs)

updated_run-IsTimed :
    (r : RunRequest) (now : ℕ) (row : PaperRunRow)
    → IsTimed (some row)
    → same_status row.status r.expected_status ≡ true
    → allowed r.expected_status r.new_status ≡ true
    → IsTimed (some (updated_run r now row))
unfolding IsTimed allowed
updated_run-IsTimed r now row h s a = ground arith

either-AreTimed :
    (t : Bool) (x y : RunResult × Dict PaperRunRow)
    → (t ≡ true → AreTimed x.1)
    → (t ≡ false → AreTimed y.1)
    → AreTimed (if t then x else y).1
either-AreTimed true x y h k = h refl
either-AreTimed false x y h k = k refl

insert-AreTimed :
    (id : String) (row : PaperRunRow) (runs : Dict PaperRunRow)
    → IsTimed (some row)
    → AreTimed runs
    → AreTimed (insert id row runs)
insert-AreTimed id row runs t h j = elim (Bool-cases (str_eq id j)) [
  | inl same ↦
      subst (λ i. IsTimed (lookup i (insert id row runs))) ((eq_iff id j).0 same)
        (subst IsTimed (sym (lookup-insert_self id row runs)) t)
  | inr other ↦
      subst IsTimed (sym (lookup-insert_ne id j row runs (λ k. ground (arith, eq_iff id j, k))))
        (h j)
]

swapped_run-AreTimed :
    (r : RunRequest) (now : ℕ) (found : Option PaperRunRow) (runs : Dict PaperRunRow)
    → lookup r.run_id runs ≡ found
    → allowed r.expected_status r.new_status ≡ true
    → AreTimed runs
    → AreTimed (swapped_run r now found runs).1
unfolding swapped_run
swapped_run-AreTimed r now none runs e a h = h
swapped_run-AreTimed r now (some row) runs e a h =
    either-AreTimed
      (same_status row.status r.expected_status && (row.version == r.expected_version))
      (moved (updated_run r now row), insert r.run_id (updated_run r now row) runs)
      (compare_and_swap_failed, runs)
      (λ hit.
        insert-AreTimed r.run_id (updated_run r now row) runs
          (updated_run-IsTimed r now row (subst IsTimed e (h r.run_id)) (ground arith) a) h)
      (λ missed. h)

transition_paper_run-AreTimed :
    (r : RunRequest) (now : ℕ) (runs : Dict PaperRunRow)
    → AreTimed runs
    → AreTimed (transition_paper_run r now runs).1
unfolding transition_paper_run
transition_paper_run-AreTimed r now runs h =
    either-AreTimed (not (allowed r.expected_status r.new_status))
      (invalid_transition r.expected_status r.new_status, runs)
      (swapped_run r now (lookup r.run_id runs) runs) (λ refused. h)
      (λ admitted. swapped_run-AreTimed r now (lookup r.run_id runs) runs refl (ground arith) h)

-- Any transitions of any runs, each at its time.
unfoldable pub run_each : List (RunRequest × ℕ) → Dict PaperRunRow → Dict PaperRunRow
run_each [] runs = runs
run_each ((r, now) ∷ calls) runs = run_each calls (transition_paper_run r now runs).1

-- Where the row of every run holds the active slot exactly while its status is active, has an end exactly when
-- its status is final and a start if it is running, this stays so over any transitions of any runs, refused
-- ones included.
pub run_each-AreTimed :
    (calls : List (RunRequest × ℕ)) (runs : Dict PaperRunRow) (id : String)
    → AreTimed runs
    → IsTimed (lookup id (run_each calls runs))
unfolding run_each
run_each-AreTimed [] runs id h = h id
run_each-AreTimed ((r, now) ∷ calls) runs id h =
    run_each-AreTimed calls (transition_paper_run r now runs).1 id
      (transition_paper_run-AreTimed r now runs h)
