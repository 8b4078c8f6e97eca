-- ===== src/Students/Mutex/Section.antt =====
-- The semaphore of X.c and Y.c: what holds in every run of the processes.
use linux_programming.Prelude.{
  ℕ, ◌+◌, ◌≤◌, some, List, [], ◌∷◌, ◌≡◌, inl, inr, refl, sym, ◌∙◌, ap, subst, arith, Bool-cases,
  Option-cases, get_elem?, take, ltb, Leads, Leads-value,
}
use linux_programming.Students.{Student, Table}
use linux_programming.Students.Mutex.{
  Saver, asleep, saving, menu, Editor, System, saver_at, saver_step, editor_step, Run, begins,
  saves, edits,
}
use linux_programming.Students.Mutex.Moves.{
  held, saver_holds, Saved, Inv, saver_step-Inv, editor_step-Inv,
}

-- Ys that have counted the records.
abbrev pub at_menu : List ℕ → List Editor
at_menu [] = []
at_menu (n ∷ ns) = record { length = n; place = menu } ∷ at_menu ns

held-waiting : (lengths : List ℕ) → held (at_menu lengths) ≡ 0
held-waiting [] = refl
held-waiting (n ∷ ns) = omega (arith, held-waiting ns)

module _ {F : Type 0} where
  -- X and the Ys as they have started.
  abbrev pub opened :
      Table F → (len : ℕ) → (file : List (Student F)) → (lengths : List ℕ) → System F
  opened t len file lengths = record {
    table = t;
    len = len;
    file = file;
    mute = 1;
    saver = asleep;
    editors = at_menu lengths;
  }

  -- A state that is reached from one in which the invariant holds.
  pub Run-Inv_after : (s s' : System F) → Inv s → Run s s' → Inv s'
  Run-Inv_after s s' h begins = h
  Run-Inv_after s s' h (saves s₁ s₂ r e) =
      Leads-value Inv (saver_step s₁) s' (saver_step-Inv s₁ (Run-Inv_after s s₁ h r)) e
  Run-Inv_after s s' h (edits s₁ s₂ j choice cg r e) =
      Leads-value Inv (editor_step j choice cg s₁) s'
        (editor_step-Inv j choice cg s₁ (Run-Inv_after s s₁ h r)) e

  pub opened-Inv :
      (t : Table F) (len : ℕ) (file : List (Student F)) (lengths : List ℕ)
      → Inv (opened t len file lengths)
  opened-Inv t len file lengths = record { one = omega (arith, held-waiting lengths); saved = tt }

  -- In every run of X and any number of Ys, one process at most is in the section, the semaphore is 0 exactly
  -- then, and what X has written there is the beginning of the table as it stands.
  pub Run-Section :
      (t : Table F) (len : ℕ) (file : List (Student F)) (lengths : List ℕ) (s : System F)
      → Run (opened t len file lengths) s
      → (s.mute + saver_holds s.saver + held s.editors ≡ 1) × Saved s.table s.len s.saver
  Run-Section t len file lengths s r =
      let h = Run-Inv_after _ s (opened-Inv t len file lengths) r in (h.one, h.saved)

  closing-saved :
      (i : ℕ) (written : List (Student F)) (s : System F)
      → (i ≤ s.len) × (written ≡ take i s.table)
      → Leads
          (λ s'. s'.saver ≡ asleep → s'.file ≡ take s.len s.table)
          (saver_at (saving i written) s)
  closing-saved i written s (small, text) = elim (Bool-cases (ltb i s.len)) [
    | inl f ↦ elim (Option-cases (get_elem? s.table i)) [
      | inl n ↦ rw (f, n) tt
      | inr (r, at) ↦ rw (f, at) (λ over. absurd (cc))
    ]
    | inr f ↦
        let all : i ≡ s.len = ground (arith, f, small) in
        rw f (λ over. text ∙ ap (λ (n : ℕ). take n s.table) all)
  ]

  -- Where X closes its file in a run, the records in it are those of the table at that time, the first `len`.
  pub Run-saved :
      (t : Table F) (len : ℕ) (file : List (Student F)) (lengths : List ℕ) (s s' : System F)
      → Run (opened t len file lengths) s
      → saver_step s ≡ some s'
      → (i : ℕ) (written : List (Student F)) → s.saver ≡ saving i written
      → s'.saver ≡ asleep
      → s'.file ≡ take s.len s.table
  unfolding saver_step
  Run-saved t len file lengths s s' r e i written here after =
      let h = Run-Inv_after _ s (opened-Inv t len file lengths) r in
      Leads-value (λ s'. s'.saver ≡ asleep → s'.file ≡ take s.len s.table)
        (saver_at (saving i written) s) s'
        (closing-saved i written s (subst (Saved s.table s.len) here h.saved))
        (ap (λ (x : Saver F). saver_at x s) (sym here) ∙ e) after
