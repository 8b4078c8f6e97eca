-- ===== src/Students/Mutex.antt =====
-- X.c and Y.c as processes: X, which saves what was updated, and any number of Ys, with their semaphore. A round of
-- the loop of an update is a step, and so is the writing of a record by X. `none` is a process that has to wait,
-- that has ended or is astray; a process that ends in its section does not give the semaphore back, as `sem_flg` is 0.
pub mod Moves
pub mod Section
pub mod Stuck
pub mod Lost
mod Tests
use linux_programming.Prelude.{
  ℕ, ◌+◌, ◌-◌, Bool, true, false, Option, none, some, List, [], ◌∷◌, ◌++◌, ◌==◌, ◌≡◌, if◌then◌else◌,
  ◌>>=◌, get_elem?, set, ltb,
}
use linux_programming.Students.{Student, Table, updated_roll, search, update_round}

-- What X is about to do: to look at the mark, to enter its section, or to write record `i`, with `written` before it.
pub data Saver (F : Type 0) : Type 0 where
  asleep : Saver F
  woken : Saver F
  saving : (i : ℕ) (written : List (Student F)) → Saver F

-- What a Y is about to do: to read a choice, or to look at entry `i` in an update. `astray` is an update that has
-- accessed memory behind the segment, in its section: what it does from there on, if it does not end, is not
-- modelled.
pub data Place : Type 0 where
  menu : Place
  updating : (i roll : ℕ) → Place
  astray : Place
  gone : Place

pub data Choice : Type 0 where
  searches : (roll : ℕ) → Choice
  updates : (roll : ℕ) → Choice
  exits : Choice

-- A Y, with its `length`.
pub record Editor : Type 0 where
  pub length : ℕ
  pub place : Place

pub record System (F : Type 0) : Type 0 where
  pub table : Table F
  pub len : ℕ
  pub file : List (Student F)
  pub mute : ℕ
  pub saver : Saver F
  pub editors : List Editor

module _ {F : Type 0} where
  -- X at a place. `fopen` empties the file, and what was written to it is in it once it is closed.
  abbrev pub saver_at : Saver F → System F → Option (System F)
  saver_at asleep s = do
    e ← get_elem? s.table s.len
    some (record s { saver = if e.roll == updated_roll then woken else asleep })
  saver_at woken s =
      if s.mute == 0
      then none
      else some (record s { mute = s.mute - 1; file = []; saver = saving 0 [] })
  saver_at (saving i written) s =
      if ltb i s.len
      then (do
        r ← get_elem? s.table i
        some (record s { saver = saving (i + 1) (written ++ r ∷ []) }))
      else some (record s { mute = s.mute + 1; file = written; saver = asleep })

  pub saver_step : System F → Option (System F)
  saver_step s = saver_at s.saver s

  -- A Y at its menu. A search is one step.
  abbrev pub chosen : Choice → Table F → ℕ → Option (Place × Table F × ℕ)
  chosen (searches roll) t mute =
      some (elim (search roll t) [ none ↦ gone | some found ↦ menu ], t, mute)
  chosen (updates roll) t mute = if mute == 0 then none else some (updating 0 roll, t, mute - 1)
  chosen exits t mute = some (gone, t, mute)

  -- What follows a round of an update.
  abbrev pub rounded : (i roll : ℕ) → Table F → ℕ → Option (Option (Table F)) → Place × Table F × ℕ
  rounded i roll t mute none = (astray, t, mute)
  rounded i roll t mute (some none) = (menu, t, mute + 1)
  rounded i roll t mute (some (some t')) = (updating (i + 1) roll, t', mute)

  pub editor_place :
      (choice : Choice) (cg : F) (length : ℕ) → Place → Table F → ℕ → Option (Place × Table F × ℕ)
  editor_place choice cg length menu t mute = chosen choice t mute
  editor_place choice cg length (updating i roll) t mute =
      some (rounded i roll t mute (update_round i length roll (λ j. cg) t))
  editor_place choice cg length astray t mute = none
  editor_place choice cg length gone t mute = none

  -- The j-th Y; the user enters `choice` at the menu and `cg` for a value.
  pub editor_step : (j : ℕ) (choice : Choice) (cg : F) → System F → Option (System F)
  editor_step j choice cg s = do
    e ← get_elem? s.editors j
    (place, table, mute) ← editor_place choice cg e.length e.place s.table s.mute
    some (record s {
      table = table;
      mute = mute;
      editors = set s.editors j (record e { place = place });
    })

-- Any interleaving of the processes, in which no step of a Y that is astray follows.
pub data Run {F : Type 0} (s : System F) : System F → Type 0 where
  begins : Run s s
  saves : (s₁ s₂ : System F) → Run s s₁ → saver_step s₁ ≡ some s₂ → Run s s₂
  edits :
      (s₁ s₂ : System F) (j : ℕ) (choice : Choice) (cg : F)
      → Run s s₁
      → editor_step j choice cg s₁ ≡ some s₂
      → Run s s₂
