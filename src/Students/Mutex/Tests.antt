-- ===== src/Students/Mutex/Tests.antt =====
-- Runs of X.c and Y.c on a small segment, and each theorem at them. The numbers stand for `float`s.
use linux_programming.Prelude.{
  ℕ, ◌+◌, List, [], ◌∷◌, ◌++◌, none, some, get_elem?, ◌≡◌, refl, arith, take,
}
use linux_programming.Students.{Student, Table, end_roll, updated_roll, update_round}
use linux_programming.Students.Table.{Ends}
use linux_programming.Students.Update.{changed}
use linux_programming.Students.Mutex.{
  woken, saving, updating, System, saver_step, Run, begins, saves,
}
use linux_programming.Students.Mutex.Moves.{saver_holds, held, Saved}
use linux_programming.Students.Mutex.Section.{opened, Run-Section, Run-saved}
use linux_programming.Students.Mutex.Stuck.{RunWithout}
use linux_programming.Students.Mutex.Lost.{update-lost}

abbrev student : (roll cg : ℕ) → Student ℕ
student roll cg = record { first_name = []; last_name = []; roll = roll; cg = cg }

abbrev records : List (Student ℕ)
records = student 1302 8 ∷ []

abbrev loaded : Table ℕ
loaded = student 1302 8 ∷ student end_roll 0 ∷ []

abbrev noted : Table ℕ
noted = student 1302 9 ∷ student updated_roll 0 ∷ []

-- X on a table in which an update is noted.
abbrev saver_system : System ℕ
saver_system = opened noted 1 records (1 ∷ [])

abbrev written : System ℕ
written = record saver_system { mute = 0; file = []; saver = saving 1 (student 1302 9 ∷ []) }

abbrev closed : System ℕ
closed = record saver_system { file = student 1302 9 ∷ [] }

saver_run : Run saver_system written
unfolding saver_step
saver_run =
    saves (record saver_system { mute = 0; file = []; saver = saving 0 [] }) written
      (saves (record saver_system { saver = woken })
        (record saver_system { mute = 0; file = []; saver = saving 0 [] })
        (saves saver_system (record saver_system { saver = woken }) begins refl) refl)
      refl

Run-Section_example :
    (written.mute + saver_holds written.saver + held written.editors ≡ 1)
    × Saved written.table written.len written.saver
Run-Section_example = Run-Section noted 1 records (1 ∷ []) written saver_run

Run-saved_example : closed.file ≡ take 1 noted
unfolding saver_step
Run-saved_example =
    Run-saved noted 1 records (1 ∷ []) written closed saver_run refl 1 (student 1302 9 ∷ []) refl
      refl

abbrev loaded-Ends : Ends end_roll records loaded
loaded-Ends = record { mark = student end_roll 0; free = []; shape = refl; mark_roll = refl }

update-lost_example :
    (s : System ℕ) × Run (opened loaded 1 records (1 ∷ [])) s
    × (s.table ≡ changed 1302 (λ i. 9) 0 (records ++ student updated_roll 0 ∷ []))
    × ((i : ℕ) × (update_round i 1 1302 (λ i. 9) s.table ≡ none)
        × (get_elem? s.editors 0 ≡ some (record { length = 1; place = updating i 1302 })))
    × ((s' : System ℕ) → RunWithout 0 s s' → s'.file ≡ records)
update-lost_example =
    update-lost records loaded loaded-Ends (1 ∷ []) 0 1302 (λ i. 9) ((λ e. omega arith), tt) tt refl
      refl
