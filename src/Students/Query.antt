-- ===== src/Students/Query.antt =====
-- Y: the length and the search, against the records that stand in the table.
use mathlib.Core.List.{append_assoc}
use linux_programming.Prelude.{
  ℕ, zero, suc, ◌+◌, ◌<◌, true, false, some, List, [], ◌∷◌, ◌++◌, ◌≡◌, refl, sym, ◌∙◌, ap, arith,
  ◌==◌, if◌then◌else◌, get_elem?, length, length-append, get_elem?-middle,
}
use linux_programming.Students.{Student, Table, end_roll, count_from, count_records}
use linux_programming.Students.Table.{Ends, Real}

module _ {F : Type 0} where
  -- The records with the roll.
  abbrev pub matches : ℕ → List (Student F) → List (Student F)
  matches roll [] = []
  matches roll (r ∷ rs) = if r.roll == roll then r ∷ matches roll rs else matches roll rs

  module _ (m : Student F) (free : Table F) (marked : m.roll ≡ end_roll) where
    at_end : (m.roll == end_roll) ≡ true
    at_end = ground (arith, marked)

    count_lem :
        (rs pre : Table F) (left i : ℕ)
        → Real rs
        → length pre ≡ i
        → length rs < left
        → count_from left i (pre ++ (rs ++ m ∷ free)) ≡ some (i + length rs)
    unfolding count_from
    count_lem rs pre zero i real e more = absurd (omega arith)
    count_lem [] pre (suc left) i real e more =
        let here : length pre ≡ i + 0 = omega arith in
        rw (sym e, get_elem?-middle m pre free, at_end)
          (ap some (here ∙ ap (λ (n : ℕ). n + 0) (sym e)))
    count_lem (r ∷ rs) pre (suc left) i real e more =
        let next : length (pre ++ r ∷ []) ≡ i + 1 = omega (arith, length-append pre (r ∷ [])) in
        let on : (r.roll == end_roll) ≡ false = let f = real.0 in ground (arith, f) in
        let at : get_elem? (pre ++ r ∷ (rs ++ m ∷ free)) i ≡ some r =
          rw (sym e) (get_elem?-middle r pre (rs ++ m ∷ free)) in
        let others : count_from left (i + 1) (pre ++ r ∷ (rs ++ m ∷ free))
            ≡ some (i + 1 + length rs) =
          rw (sym (append_assoc pre (r ∷ []) (rs ++ m ∷ free)))
            (count_lem rs (pre ++ r ∷ []) left (i + 1) real.1 next (omega arith)) in
        rw (at, on, others) (ap some (omega arith))

  -- In a loaded table, Y finds the number of the records.
  pub count_records-length :
      (rs : List (Student F)) (s : Table F)
      → Real rs
      → Ends end_roll rs s
      → count_records s ≡ some (length rs)
  unfolding count_records
  count_records-length rs s real e =
      let more : length rs < length (rs ++ e.mark ∷ e.free) =
        omega (arith, length-append rs (e.mark ∷ e.free)) in
      rw (e.shape) (
        count_lem e.mark e.free e.mark_roll rs [] (length (rs ++ e.mark ∷ e.free)) 0 real refl more
        ∙ ap some (omega arith))
