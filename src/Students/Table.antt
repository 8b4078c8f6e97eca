-- ===== src/Students/Table.antt =====
-- X: what the table holds once the file is loaded, and what is saved from it.
use mathlib.Core.List.{append_assoc}
use linux_programming.Prelude.{
  ℕ, ◌+◌, ◌-◌, ◌≤◌, ◌<◌, true, false, none, some, List, [], ◌∷◌, ◌++◌, ◌≡◌, ◌≢◌, refl, sym, ◌∙◌, ap,
  arith, ◌==◌, set, drop, length, length-append, get_elem?-middle, set-middle, ltb, All, All-drop,
  Returns, subst,
}
use linux_programming.Students.{
  Student, Table, end_roll, updated_roll, write_at, write_roll, rounds, load_records, load,
  save_records, save,
}

module _ {F : Type 0} where
  -- The table holds the records of `rs` from its start, and `roll` stands behind them.
  pub record Ends (roll : ℕ) (rs : List (Student F)) (s : Table F) : Type 0 where
    pub mark : Student F
    pub free : Table F
    pub shape : s ≡ rs ++ mark ∷ free
    pub mark_roll : mark.roll ≡ roll

  abbrev pub Real : List (Student F) → Type 0
  Real = All (λ r. r.roll ≢ end_roll)

  load_records_lem :
      (rs pre rest : Table F) (i : ℕ)
      → length pre ≡ i
      → length rs ≤ length rest
      → load_records i rs (pre ++ rest) ≡ some (pre ++ (rs ++ drop (length rs) rest))
  unfolding load_records write_at
  load_records_lem [] pre rest i e room = refl
  load_records_lem (r ∷ rs) pre [] i e room = absurd (omega arith)
  load_records_lem (r ∷ rs) pre (x ∷ rest) i e room =
      let fits : ltb i (length (pre ++ x ∷ rest)) ≡ true =
        let l = length-append pre (x ∷ rest) in ground (arith, l, e) in
      let written : set (pre ++ x ∷ rest) i r ≡ (pre ++ r ∷ []) ++ rest =
        rw (sym e) (set-middle x r pre rest ∙ sym (append_assoc pre (r ∷ []) rest)) in
      let next : length (pre ++ r ∷ []) ≡ i + 1 = omega (arith, length-append pre (r ∷ [])) in
      rw (fits, written)
        (load_records_lem rs (pre ++ r ∷ []) rest (i + 1) next (omega arith)
          ∙ ap some (append_assoc pre (r ∷ []) (rs ++ drop (length rs) rest)))

  pub write_roll_lem :
      (roll : ℕ) (m : Student F) (pre rest : Table F)
      → write_roll (length pre) roll (pre ++ m ∷ rest)
        ≡ some (pre ++ record m { roll = roll } ∷ rest)
  unfolding write_roll
  write_roll_lem roll m pre rest =
      rw (get_elem?-middle m pre rest, set-middle m (record m { roll = roll }) pre rest)

  save_records_lem :
      (rs pre rest : Table F) (i : ℕ)
      → length pre ≡ i
      → save_records (length rs) i (pre ++ (rs ++ rest)) ≡ some rs
  unfolding save_records
  save_records_lem [] pre rest i e = refl
  save_records_lem (r ∷ rs) pre rest i e =
      let at = get_elem?-middle r pre (rs ++ rest) in
      let next : length (pre ++ r ∷ []) ≡ i + 1 = omega (arith, length-append pre (r ∷ [])) in
      let others : save_records (length rs) (i + 1) (pre ++ r ∷ (rs ++ rest)) ≡ some rs =
        rw (sym (append_assoc pre (r ∷ []) (rs ++ rest)))
          (save_records_lem rs (pre ++ r ∷ []) rest (i + 1) next) in
      rw (sym e, at) (rw (e, others))

  cut :
      (rs s : Table F)
      → length rs < length s
      → (m : Student F) × (free : Table F) × (drop (length rs) s ≡ m ∷ free)
  cut [] [] h = absurd (omega arith)
  cut [] (x ∷ s) h = (x, s, refl)
  cut (r ∷ rs) [] h = absurd (omega arith)
  cut (r ∷ rs) (x ∷ s) h = cut rs s (omega arith)

  rounds_lem : (rs : List (Student F)) → rounds rs true - 1 ≡ length rs
  unfolding rounds
  rounds_lem [] = omega arith
  rounds_lem (r ∷ rs) = omega arith

  rounds_loses :
      (rs : List (Student F)) (last : Student F) → rounds (rs ++ last ∷ []) false - 1 ≡ length rs
  unfolding rounds
  rounds_loses [] last = omega arith
  rounds_loses (r ∷ rs) last = omega (arith, length-append rs (last ∷ []))

  -- A file whose last record ends with a newline, and that leaves room in the segment for the mark: X loads
  -- all its records in order, `len` is their number, and -1 stands behind them; a roll -1 stands behind that
  -- only where one stood before.
  pub load-Ends :
      (file : List (Student F)) (s : Table F)
      → length file < length s
      → Returns
          (load file true s)
          (λ x. (x.0 ≡ length file) × ((e : Ends end_roll file x.1) × (Real s → Real e.free)))
  unfolding load
  load-Ends file s room =
      let (m, free, rest) = cut file s room in
      let fresh : Real s → Real free =
        λ h. (subst Real rest (All-drop (λ r. r.roll ≢ end_roll) (length file) s h)).1 in
      let loaded : load_records 0 file s ≡ some (file ++ m ∷ free) =
        load_records_lem file [] s 0 refl (omega arith)
        ∙ ap (λ (l : Table F). some (file ++ l)) rest in
      rw (loaded, rounds_lem file, write_roll_lem end_roll m file free)
        (
          refl,
          (
            record {
              mark = record m { roll = end_roll };
              free = free;
              shape = refl;
              mark_roll = refl;
            },
            fresh,
          ),
        )

  -- Without the newline at its end, the last record of a file is lost: -1 overwrites its roll.
  pub load-loses :
      (file : List (Student F)) (last : Student F) (s : Table F)
      → length file < length s
      → Returns
          (load (file ++ last ∷ []) false s)
          (λ x. (x.0 ≡ length file) × Ends end_roll file x.1)
  unfolding load
  load-loses file last s room =
      let (m, free, rest) = cut file s room in
      let fits : length (file ++ last ∷ []) ≤ length s =
        omega (arith, length-append file (last ∷ [])) in
      let loaded : load_records 0 (file ++ last ∷ []) s
          ≡ some (file ++ last ∷ drop (length (file ++ last ∷ [])) s) =
        load_records_lem (file ++ last ∷ []) [] s 0 refl fits
        ∙ ap some (append_assoc file (last ∷ []) (drop (length (file ++ last ∷ [])) s)) in
      rw
        (
          loaded,
          rounds_loses file last,
          write_roll_lem end_roll last file (drop (length (file ++ last ∷ [])) s),
        )
        (
          refl,
          record {
            mark = record last { roll = end_roll };
            free = drop (length (file ++ last ∷ [])) s;
            shape = refl;
            mark_roll = refl;
          },
        )

  -- When X wakes: with -2 behind the records it writes them to its file, all and in order; with -1 it
  -- writes nothing.
  pub save-Ends :
      (rs : List (Student F)) (s : Table F)
      → (Ends updated_roll rs s → save (length rs) s ≡ some (some rs))
        × (Ends end_roll rs s → save (length rs) s ≡ some none)
  unfolding save
  save-Ends rs s = (
    (λ e.
        let marked : (e.mark.roll == updated_roll) ≡ true = let f = e.mark_roll in ground arith in
        rw (
          e.shape,
          get_elem?-middle e.mark rs e.free,
          marked,
          save_records_lem rs [] (e.mark ∷ e.free) 0 refl,
        )),
    (λ e.
        let marked : (e.mark.roll == updated_roll) ≡ false = let f = e.mark_roll in ground arith in
        rw (e.shape, get_elem?-middle e.mark rs e.free, marked)),
  )
