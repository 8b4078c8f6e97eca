-- ===== src/Students.antt =====
-- Querying and updation/X.c, which loads student records into shared memory and saves them, and Y.c,
-- which searches and updates them there. A string is a list of bytes, `roll` an `int` as its bit pattern,
-- and `F` the type `float`. The shared segment is the list of its entries; `none`, or `off_table`, is an
-- access behind its end. What stands in a file is the list of its records.
pub mod Table
pub mod Query
pub mod Update
pub mod Edit
pub mod Mutex
pub mod Setup
mod Tests
use linux_programming.Prelude.{
  ℕ, zero, suc, ◌+◌, ◌-◌, ◌^◌, Bool, true, false, Option, none, some, List, [], ◌∷◌, ◌==◌,
  if◌then◌else◌, ◌>>=◌, get_elem?, set, length, ltb,
}

pub record Student (F : Type 0) : Type 0 where
  pub first_name : List ℕ
  pub last_name : List ℕ
  pub roll : ℕ
  pub cg : F

-- The rolls -1, behind the last record, and -2, in its place after an update.
abbrev pub end_roll : ℕ
end_roll = 2 ^ 32 - 1

abbrev pub updated_roll : ℕ
updated_roll = 2 ^ 32 - 2

abbrev pub Table : Type 0 → Type 0
Table F = List (Student F)

-- How an update ends: at the end of the records, or behind the segment, where the table is as it was
-- left.
pub data Outcome (F : Type 0) : Type 0 where
  done : Table F → Outcome F
  off_table : Table F → Outcome F

module _ {F : Type 0} where
  -- `s_shared[i] = r`
  pub write_at : ℕ → Student F → Table F → Option (Table F)
  write_at i r s = if ltb i (length s) then some (set s i r) else none

  -- `s_shared[i].roll = roll`
  pub write_roll : (i roll : ℕ) → Table F → Option (Table F)
  write_roll i roll s = do e ← get_elem? s i; some (set s i (record e { roll = roll }))

  -- The rounds of the loop of X over its file: the end of the file is seen when a read meets it, which
  -- is one round late where a newline ends the last record.
  pub rounds : (file : List (Student F)) (newline : Bool) → ℕ
  rounds [] newline = 1
  rounds (r ∷ rs) newline = length (r ∷ rs) + (if newline then 1 else 0)

  pub load_records : ℕ → List (Student F) → Table F → Option (Table F)
  load_records i [] s = some s
  load_records i (r ∷ rs) s = do s ← write_at i r s; load_records (i + 1) rs s

  -- What X does with its file: `len`, and the table.
  pub load : (file : List (Student F)) (newline : Bool) → Table F → Option (ℕ × Table F)
  load file newline s = do
    s ← load_records 0 file s
    let len = rounds file newline - 1
    s ← write_roll len end_roll s
    some (len, s)

  -- The loop that writes `left` records from `i` on.
  pub save_records : (left i : ℕ) → Table F → Option (List (Student F))
  save_records zero i s = some []
  save_records (suc left) i s = do
    r ← get_elem? s i
    rs ← save_records left (i + 1) s
    some (r ∷ rs)

  -- What X does when it wakes: the new content of the file, if an update has been noted.
  pub save : (len : ℕ) → Table F → Option (Option (List (Student F)))
  save len s = do
    e ← get_elem? s len
    if e.roll == updated_roll then (do rs ← save_records len 0 s; some (some rs)) else some none

  -- The loops of Y from entry `i`, with `left` entries to the end of the segment: the length, and what a
  -- search prints.
  pub count_from : (left i : ℕ) → Table F → Option ℕ
  count_from zero i s = none
  count_from (suc left) i s =
      let rest = count_from left (i + 1) s in
      do t ← get_elem? s i; if t.roll == end_roll then some i else rest

  pub search_from : (left i roll : ℕ) → Table F → Option (List (Student F))
  search_from zero i roll s = none
  search_from (suc left) i roll s =
      let rest = search_from left (i + 1) roll s in
      do
        t ← get_elem? s i
        if t.roll == end_roll
            then some []
            else (do found ← rest; some (if t.roll == roll then t ∷ found else found))

  pub count_records : Table F → Option ℕ
  count_records s = count_from (length s) 0 s

  pub search : (roll : ℕ) → Table F → Option (List (Student F))
  search roll s = search_from (length s) 0 roll s

  -- The two writes of an update at entry `i`; `cg` is what the user enters for it.
  pub change : (len i : ℕ) (cg : F) → Table F → Option (Table F)
  change len i cg s = do
    t ← get_elem? s i
    write_roll len updated_roll (set s i (record t { cg = cg }))

  -- One round of the loop of an update: `some none` where its test ends it.
  pub update_round : (i len roll : ℕ) (cgpa : ℕ → F) → Table F → Option (Option (Table F))
  update_round i len roll cgpa s = do
    t ← get_elem? s i
    if t.roll == end_roll
        then some none
        else if t.roll == roll
        then (do s ← change len i (cgpa i) s; some (some s))
        else some (some s)

  -- What follows a round from the table `s`.
  abbrev pub go_on : Table F → (Table F → Outcome F) → Option (Option (Table F)) → Outcome F
  go_on s next none = off_table s
  go_on s next (some none) = done s
  go_on s next (some (some s')) = next s'

  pub update_from : (left i len roll : ℕ) (cgpa : ℕ → F) → Table F → Outcome F
  update_from zero i len roll cgpa s = off_table s
  update_from (suc left) i len roll cgpa s =
      go_on s (update_from left (i + 1) len roll cgpa) (update_round i len roll cgpa s)

  pub update : (len roll : ℕ) (cgpa : ℕ → F) → Table F → Outcome F
  update len roll cgpa s = update_from (length s) 0 len roll cgpa s
