-- ===== src/Students/Edit.antt =====
-- X and Y together: a file is loaded, updated in shared memory, and saved.
use linux_programming.Prelude.{
  ℕ, ◌+◌, ◌<◌, true, none, some, List, [], ◌∷◌, ◌++◌, ◌≡◌, refl, sym, ◌∙◌, ap, arith, ◌==◌,
  if◌then◌else◌, length, Bool-cases, inl, inr, Returns, Returns-map,
}
use linux_programming.Students.{
  Student, Table, Outcome, done, off_table, updated_roll, update, load, save,
}
use linux_programming.Students.Table.{Ends, Real, load-Ends, save-Ends}
use linux_programming.Students.Update.{changed, has, update-changed}

module _ {F : Type 0} where
  abbrev pub left_by : Outcome F → Table F
  left_by (done s) = s
  left_by (off_table s) = s

  length-changed :
      (roll : ℕ) (cgpa : ℕ → F) (i : ℕ) (rs : List (Student F))
      → length (changed roll cgpa i rs) ≡ length rs
  length-changed roll cgpa i [] = refl
  length-changed roll cgpa i (r ∷ rs) = omega (arith, length-changed roll cgpa (i + 1) rs)

  changed-append :
      (roll : ℕ) (cgpa : ℕ → F) (i : ℕ) (rs qs : List (Student F))
      → changed roll cgpa i (rs ++ qs)
        ≡ changed roll cgpa i rs ++ changed roll cgpa (i + length rs) qs
  changed-append roll cgpa i [] qs = ap (λ (j : ℕ). changed roll cgpa j qs) (omega arith)
  changed-append roll cgpa i (r ∷ rs) qs =
      ap (λ (l : List (Student F)). (if r.roll == roll then record r { cg = cgpa i } else r) ∷ l)
        (changed-append roll cgpa (i + 1) rs qs
          ∙ ap (λ (j : ℕ). changed roll cgpa (i + 1) rs ++ changed roll cgpa j qs) (omega arith))

  changed-Ends :
      (roll : ℕ) (cgpa : ℕ → F) (rs : List (Student F)) (m : Student F) (free : Table F)
      → m.roll ≡ updated_roll
      → Ends updated_roll (changed roll cgpa 0 rs) (changed roll cgpa 0 (rs ++ m ∷ free))
  changed-Ends roll cgpa rs m free marked = record {
    mark = if m.roll == roll then record m { cg = cgpa (0 + length rs) } else m;
    free = changed roll cgpa (0 + length rs + 1) free;
    shape = changed-append roll cgpa 0 rs (m ∷ free);
    mark_roll = ground (arith, marked);
  }

  -- The way of an update through X and Y: X loads a file that ends with a newline into a segment in which no
  -- roll is -1, and Y updates. Where a record has the roll, what X then finds to write is the file with the
  -- new value in each such record; otherwise it finds nothing to write.
  pub save-update-load :
      (roll : ℕ) (cgpa : ℕ → F) (file : List (Student F)) (s : Table F)
      → Real file
      → Real s
      → length file < length s
      → Returns (load file true s) (λ x.
        save x.0 (left_by (update x.0 roll cgpa x.1))
        ≡ some (if has roll file then some (changed roll cgpa 0 file) else none))
  save-update-load roll cgpa file s real fresh room =
      Returns-map _ _ (load file true s) (load-Ends file s room) (λ x h.
        let (e, free) = h.1 in
        let other = update-changed roll cgpa file x.1 e real (free fresh) in
        rw (h.0, other)
          (elim (Bool-cases (has roll file)) [
            | inl f ↦
                let m : Student F = record e.mark { roll = updated_roll } in
                let t : Table F = changed roll cgpa 0 (file ++ m ∷ e.free) in
                let saved : save (length (changed roll cgpa 0 file)) t
                    ≡ some (some (changed roll cgpa 0 file)) =
                  (save-Ends (changed roll cgpa 0 file) t).0
                    (changed-Ends roll cgpa file m e.free refl) in
                rw (f, sym (length-changed roll cgpa 0 file)) saved
            | inr f ↦ rw f ((save-Ends file x.1).1 e)
          ]))
