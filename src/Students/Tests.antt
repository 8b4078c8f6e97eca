-- ===== src/Students/Tests.antt =====
-- A small segment, and each theorem at it. The numbers stand for `float`s.
use linux_programming.Prelude.{
  ℕ, true, false, none, some, List, [], ◌∷◌, ◌++◌, ◌≡◌, refl, arith, if◌then◌else◌, length, Returns,
}
use linux_programming.Students.{
  Student, Table, done, off_table, end_roll, updated_roll, load, load_records, write_at, write_roll,
  rounds, search, search_from, count_records, count_from, update, update_from, update_round, change,
}
use linux_programming.Students.Table.{Ends, Real, load-loses}
use linux_programming.Students.Setup.{zeros, open_saver, open_editor, clean, clean-start}
use linux_programming.Students.Update.{changed, has, update-changed}

abbrev student : (roll cg : ℕ) → Student ℕ
student roll cg = record { first_name = []; last_name = []; roll = roll; cg = cg }

-- A file of two records, and a segment of four entries.
abbrev file : List (Student ℕ)
file = student 1302 8 ∷ student 1523 6 ∷ []

abbrev fresh : Table ℕ
fresh = student 0 0 ∷ student 0 0 ∷ student 0 0 ∷ student 0 0 ∷ []

abbrev loaded : Table ℕ
loaded = file ++ student end_roll 0 ∷ student 0 0 ∷ []

abbrev loaded-Ends : Ends end_roll file loaded
loaded-Ends = record {
  mark = student end_roll 0;
  free = student 0 0 ∷ [];
  shape = refl;
  mark_roll = refl;
}

file-Real : Real file
file-Real = ((λ e. omega arith), ((λ e. omega arith), tt))

runs :
    (load file true fresh ≡ some (2, loaded))
    × (load file false fresh
        ≡ some (1, student 1302 8 ∷ student end_roll 6 ∷ student 0 0 ∷ student 0 0 ∷ []))
    × (search 1523 loaded ≡ some (student 1523 6 ∷ []))
    × (count_records loaded ≡ some 2)
    × (update 2 1302 (λ i. 9) loaded
        ≡ off_table (student 1302 9 ∷ student 1523 6 ∷ student updated_roll 0 ∷ student 0 0 ∷ []))
    × (update 2 7 (λ i. 9) loaded ≡ done loaded)
unfolding load load_records write_at write_roll rounds search search_from count_records count_from
    update update_from update_round change
runs = (refl, refl, refl, refl, refl, refl)

load-loses_example :
    Returns
      (load (student 1302 8 ∷ [] ++ student 1523 6 ∷ []) false fresh)
      (λ x. (x.0 ≡ 1) × Ends end_roll (student 1302 8 ∷ []) x.1)
load-loses_example = load-loses (student 1302 8 ∷ []) (student 1523 6) fresh (omega arith)

update-changed_example : update 2 1302 (λ i. 9) loaded ≡ (
    if has 1302 file
    then off_table (changed 1302 (λ i. 9) 0 (file ++ student updated_roll 0 ∷ student 0 0 ∷ []))
    else done loaded)
update-changed_example =
    update-changed 1302 (λ i. 9) file loaded loaded-Ends file-Real ((λ e. omega arith), tt)

-- clean.c and a new X after an update that has left the semaphore at 0.
clean-start_example :
    (open_saver true true 0 (clean (record { segment = some loaded; mute = some 0 })).2
      ≡ (true, record { segment = some (zeros 101 0); mute = some 1 }))
    × Returns
        (load file true (zeros 101 0))
        (λ x. (x.0 ≡ length file) × ((e : Ends end_roll file x.1) × Real e.free))
clean-start_example = clean-start true true (some loaded) (some 0) 0 file refl refl (omega arith)

-- A Y that finds the segment before X has made the semaphore goes on without it.
early :
    open_editor {F = ℕ}
      (record { segment = none; mute = none } ∷ record { segment = some loaded; mute = none } ∷ [])
    ≡ some false
unfolding open_editor
early = refl
