-- ===== src/Students/Update.antt =====
-- Y: the update. It writes -2 over the -1 at which its own loop is to end, so after a match the loop runs
-- to the end of the segment.
use mathlib.Core.List.{append_assoc}
use linux_programming.Prelude.{
  ℕ, zero, suc, ◌+◌, Bool, true, false, ◌||◌, some, List, [], ◌∷◌, ◌++◌, ◌≡◌, ◌≢◌, refl, sym, ap,
  arith, ◌==◌, if◌then◌else◌, get_elem?, set, length, length-append, get_elem?-middle, set-middle,
  Bool-cases, inl, inr, All-append,
}
use linux_programming.Students.{
  Student, Table, Outcome, done, off_table, end_roll, updated_roll, write_roll, change,
  update_round, update_from, update,
}
use linux_programming.Students.Table.{Ends, Real, write_roll_lem}

module _ {F : Type 0} where
  set_same : (s : Table F) (i : ℕ) (e : Student F) → get_elem? s i ≡ some e → set s i e ≡ s
  set_same [] i e at = refl
  set_same (x ∷ s) zero e at = cc
  set_same (x ∷ s) (suc i) e at = ap (λ (l : Table F). x ∷ l) (set_same s i e at)

  -- The records from entry `i` on with the new value in each that has the roll.
  abbrev pub changed : (roll : ℕ) (cgpa : ℕ → F) → ℕ → List (Student F) → List (Student F)
  changed roll cgpa i [] = []
  changed roll cgpa i (r ∷ rs) =
      (if r.roll == roll then record r { cg = cgpa i } else r) ∷ changed roll cgpa (i + 1) rs

  -- Some record has the roll.
  abbrev pub has : ℕ → List (Student F) → Bool
  has roll [] = false
  has roll (r ∷ rs) = r.roll == roll || has roll rs

  module _ (len roll : ℕ) (cgpa : ℕ → F) where
    -- An update has been noted.
    abbrev Marked : Table F → Type 0
    Marked s = (e : Student F) × (get_elem? s len ≡ some e) × (e.roll ≡ updated_roll)

    mark_again : (s : Table F) → Marked s → write_roll len updated_roll s ≡ some s
    unfolding write_roll
    mark_again s (e, at, marked) =
        let same : record e { roll = updated_roll } ≡ e =
          ap (λ (z : ℕ). record e { roll = z }) (sym marked) in
        rw (at, same, set_same s len e at)

    Marked-set :
        (pre rest : Table F) (r : Student F) (v : F)
        → Marked (pre ++ r ∷ rest)
        → Marked (pre ++ record r { cg = v } ∷ rest)
    Marked-set pre rest r v (e, at, marked) = go pre len at
      where
        go :
            (pre : Table F) (i : ℕ)
            → get_elem? (pre ++ r ∷ rest) i ≡ some e
            → (e' : Student F) × (get_elem? (pre ++ record r { cg = v } ∷ rest) i ≡ some e')
              × (e'.roll ≡ updated_roll)
        go [] zero at = (record r { cg = v }, refl, ground (arith, at, marked))
        go [] (suc i) at = (e, at, marked)
        go (x ∷ pre) zero at = (e, at, marked)
        go (x ∷ pre) (suc i) at = go pre i at

    -- The rest of the loop, once the entry `r` is behind it.
    pushed :
        (rest pre : Table F) (r : Student F) (left i : ℕ)
        → update_from left (i + 1) len roll cgpa ((pre ++ r ∷ []) ++ rest)
          ≡ off_table ((pre ++ r ∷ []) ++ changed roll cgpa (i + 1) rest)
        → update_from left (i + 1) len roll cgpa (pre ++ r ∷ rest)
          ≡ off_table (pre ++ r ∷ changed roll cgpa (i + 1) rest)
    pushed rest pre r left i h =
        rw
          (
            sym (append_assoc pre (r ∷ []) rest),
            sym (append_assoc pre (r ∷ []) (changed roll cgpa (i + 1) rest)),
          )
          h

    running_lem :
        (rest pre : Table F) (left i : ℕ)
        → Real rest
        → length pre ≡ i
        → length rest ≡ left
        → Marked (pre ++ rest)
        → update_from left i len roll cgpa (pre ++ rest)
          ≡ off_table (pre ++ changed roll cgpa i rest)
    unfolding update_from update_round change
    running_lem [] pre zero i real e all m = refl
    running_lem [] pre (suc left) i real e all m = absurd (omega arith)
    running_lem (r ∷ rest) pre zero i real e all m = absurd (omega arith)
    running_lem (r ∷ rest) pre (suc left) i real e all m =
        let at : get_elem? (pre ++ r ∷ rest) i ≡ some r =
          rw (sym e) (get_elem?-middle r pre rest) in
        let on : (r.roll == end_roll) ≡ false = let f = real.0 in ground (arith, f) in
        let next : (x : Student F) → length (pre ++ x ∷ []) ≡ i + 1 =
          λ x. omega (arith, length-append pre (x ∷ [])) in
        rw (at, on)
          (elim (Bool-cases (r.roll == roll)) [
            | inl f ↦
                let r' = record r { cg = cgpa i } in
                let later = Marked-set pre rest r (cgpa i) m in
                let written : (v : Student F) → set (pre ++ r ∷ rest) i v ≡ pre ++ v ∷ rest =
                  λ v. rw (sym e) (set-middle r v pre rest) in
                rw (f, written r', mark_again (pre ++ r' ∷ rest) later)
                  (pushed rest pre r' left i (
                    running_lem rest (pre ++ r' ∷ []) left (i + 1) real.1 (next r') (omega arith)
                      (rw (append_assoc pre (r' ∷ []) rest) later)))
            | inr f ↦ rw f (
                pushed rest pre r left i (
                  running_lem rest (pre ++ r ∷ []) left (i + 1) real.1 (next r) (omega arith)
                    (rw (append_assoc pre (r ∷ []) rest) m)))
          ])

    -- The loop before the first match, over the records of `rs`.
    module _ (m : Student F) (free : Table F) (marked : m.roll ≡ end_roll)
        (real_free : Real free) where
      abbrev noted : Student F
      noted = record m { roll = updated_roll }

      abbrev expected : (pre rs : Table F) → ℕ → Outcome F
      expected pre rs i =
          if has roll rs
          then off_table (pre ++ changed roll cgpa i (rs ++ noted ∷ free))
          else done (pre ++ (rs ++ m ∷ free))

      module _ (r : Student F) (rs pre : Table F) (l : length pre + length rs + 1 ≡ len) where
        place : length (pre ++ r ∷ rs) ≡ len
        place = omega (arith, length-append pre (r ∷ rs))

        noted_lem :
            write_roll len updated_roll (pre ++ r ∷ (rs ++ m ∷ free))
            ≡ some (pre ++ r ∷ (rs ++ noted ∷ free))
        noted_lem =
            rw
              (
                sym (append_assoc pre (r ∷ rs) (m ∷ free)),
                sym (append_assoc pre (r ∷ rs) (noted ∷ free)),
                sym place,
              )
              (write_roll_lem updated_roll m (pre ++ r ∷ rs) free)

        noted-Marked : Marked (pre ++ r ∷ (rs ++ noted ∷ free))
        noted-Marked =
            rw (sym (append_assoc pre (r ∷ rs) (noted ∷ free)), sym place)
              (noted, get_elem?-middle noted (pre ++ r ∷ rs) free, refl)

      start_lem :
          (rs pre : Table F) (left i : ℕ)
          → Real rs
          → length pre ≡ i
          → length rs + 1 + length free ≡ left
          → i + length rs ≡ len
          → update_from left i len roll cgpa (pre ++ (rs ++ m ∷ free)) ≡ expected pre rs i
      unfolding update_from update_round change
      start_lem rs pre zero i real e all l = absurd (omega arith)
      start_lem [] pre (suc left) i real e all l =
          let at : get_elem? (pre ++ m ∷ free) i ≡ some m =
            rw (sym e) (get_elem?-middle m pre free) in
          let end : (m.roll == end_roll) ≡ true = ground (arith, marked) in rw (at, end)
      start_lem (r ∷ rs) pre (suc left) i real e all l =
          let at : get_elem? (pre ++ r ∷ (rs ++ m ∷ free)) i ≡ some r =
            rw (sym e) (get_elem?-middle r pre (rs ++ m ∷ free)) in
          let on : (r.roll == end_roll) ≡ false = let f = real.0 in ground (arith, f) in
          let next : (x : Student F) → length (pre ++ x ∷ []) ≡ i + 1 =
            λ x. omega (arith, length-append pre (x ∷ [])) in
          rw (at, on)
            (elim (Bool-cases (r.roll == roll)) [
              | inl f ↦
                  let r' = record r { cg = cgpa i } in
                  let written : (v : Student F)
                      → set (pre ++ r ∷ (rs ++ m ∷ free)) i v ≡ pre ++ v ∷ (rs ++ m ∷ free) =
                    λ v. rw (sym e) (set-middle r v pre (rs ++ m ∷ free)) in
                  rw (f, written r', noted_lem r' rs pre (omega arith))
                    (pushed (rs ++ noted ∷ free) pre r' left i (
                      running_lem (rs ++ noted ∷ free) (pre ++ r' ∷ []) left (i + 1)
                        (All-append (λ r. r.roll ≢ end_roll) rs (noted ∷ free) real.1
                          ((λ q. omega arith), real_free))
                        (next r') (omega (arith, length-append rs (noted ∷ free)))
                        (rw (append_assoc pre (r' ∷ []) (rs ++ noted ∷ free))
                          (noted-Marked r' rs pre (omega arith)))))
              | inr f ↦
                  rw
                    (
                      f,
                      sym (append_assoc pre (r ∷ []) (rs ++ m ∷ free)),
                      sym (
                          append_assoc pre (r ∷ [])
                            (changed roll cgpa (i + 1) (rs ++ noted ∷ free))),
                    )
                    (start_lem rs (pre ++ r ∷ []) left (i + 1) real.1 (next r) (omega arith)
                      (omega arith))
            ])

  -- In a loaded table with no other roll -1: where no record has the roll, an update ends and changes nothing.
  -- Where one has it, the loop runs off the end of the segment; by then every entry with the roll has its
  -- new value, and -2 stands behind the records.
  pub update-changed :
      (roll : ℕ) (cgpa : ℕ → F) (rs : List (Student F)) (s : Table F) (e : Ends end_roll rs s)
      → Real rs
      → Real e.free
      → update (length rs) roll cgpa s ≡ (
          if has roll rs
          then off_table
              (changed roll cgpa 0 (rs ++ record e.mark { roll = updated_roll } ∷ e.free))
          else done s)
  unfolding update
  update-changed roll cgpa rs s e real free =
      let all : length rs + 1 + length e.free ≡ length (rs ++ e.mark ∷ e.free) =
        omega (arith, length-append rs (e.mark ∷ e.free)) in
      rw (e.shape) (
        start_lem (length rs) roll cgpa e.mark e.free e.mark_roll free rs []
          (length (rs ++ e.mark ∷ e.free)) 0 real refl all (omega arith))
