-- ===== src/Students/Mutex/Stuck.antt =====
-- While a Y in its section makes no step, because it has ended there or for another reason, the semaphore stays
-- at 0.
use linux_programming.Prelude.{
  ℕ, zero, suc, ◌+◌, ◌≤◌, Option, none, some, List, [], ◌∷◌, ◌≡◌, ◌≢◌, inl, inr, refl, ◌∙◌, ap,
  subst, arith, Option-cases, get_elem?, Leads, Leads-map, Leads-value, get_elem?-set_other,
}
use linux_programming.Students.Mutex.{
  Saver, asleep, woken, saving, Choice, Editor, System, saver_at, saver_step, editor_place,
  editor_step, Run, begins, saves, edits,
}
use linux_programming.Students.Mutex.Moves.{
  holds, held, held-at, Inv, saver_holds, Edited, editor_place-Edited,
}
use linux_programming.Students.Mutex.Section.{Run-Inv_after}

same_holds : (x d : Editor) → some x ≡ some d → holds x.place ≡ holds d.place
same_holds x d e = ap (λ (o : Option Editor). elim o [ none ↦ 0 | some c ↦ holds c.place ]) e

-- Two Ys cannot be in the section at once.
others-outside :
    (es : List Editor) (i j : ℕ) (d e : Editor)
    → i ≢ j
    → get_elem? es i ≡ some d
    → get_elem? es j ≡ some e
    → holds d.place + holds e.place ≤ held es
others-outside [] i j d e ne ati atj = absurd (cc)
others-outside (x ∷ es) zero zero d e ne ati atj = absurd (ne refl)
others-outside (x ∷ es) zero (suc j) d e ne ati atj =
    omega (arith, same_holds x d ati, held-at es j e atj)
others-outside (x ∷ es) (suc i) zero d e ne ati atj =
    omega (arith, same_holds x e atj, held-at es i d ati)
others-outside (x ∷ es) (suc i) (suc j) d e ne ati atj =
    omega (arith, others-outside es i j d e (λ q. ne (omega (arith, q))) ati atj)

module _ {F : Type 0} where
  -- Any interleaving of the processes without the Y at `j`.
  pub data RunWithout (j : ℕ) (s : System F) : System F → Type 0 where
    begins_without : RunWithout j s s
    saves_without :
        (s₁ s₂ : System F) → RunWithout j s s₁ → saver_step s₁ ≡ some s₂ → RunWithout j s s₂
    edits_without :
        (s₁ s₂ : System F) (i : ℕ) (choice : Choice) (cg : F)
        → i ≢ j
        → RunWithout j s s₁
        → editor_step i choice cg s₁ ≡ some s₂
        → RunWithout j s s₂

  without-Run : (j : ℕ) (s₀ s s' : System F) → Run s₀ s → RunWithout j s s' → Run s₀ s'
  without-Run j s₀ s s' r begins_without = r
  without-Run j s₀ s s' r (saves_without s₁ s₂ q f) = saves s₁ s₂ (without-Run j s₀ s s₁ r q) f
  without-Run j s₀ s s' r (edits_without s₁ s₂ i choice cg ne q f) =
      edits s₁ s₂ i choice cg (without-Run j s₀ s s₁ r q) f

  -- The Y at `j` is in its section; the file and the table are as in `s`.
  pub record Stuck (j : ℕ) (s s' : System F) : Type 0 where
    pub there : (e : Editor) × (get_elem? s'.editors j ≡ some e) × (holds e.place ≡ 1)
    pub file : s'.file ≡ s.file
    pub table : s'.table ≡ s.table

  saver_at-Stuck :
      (j : ℕ) (x : Saver F) (s : System F)
      → s.mute ≡ 0
      → saver_holds x ≡ 0
      → Leads
          (λ s'. (s'.file ≡ s.file) × (s'.table ≡ s.table) × (s'.editors ≡ s.editors))
          (saver_at x s)
  saver_at-Stuck j asleep s m h = elim (Option-cases (get_elem? s.table s.len)) [
    | inl n ↦ rw n tt
    | inr (e, at) ↦ rw at (refl, refl, refl)
  ]
  saver_at-Stuck j woken s m h = rw m tt
  saver_at-Stuck j (saving i written) s m h = absurd (omega (arith, h))

  -- The semaphore is 0, and no other process is in the section.
  alone :
      (j : ℕ) (s : System F) (e : Editor)
      → Inv s
      → get_elem? s.editors j ≡ some e
      → holds e.place ≡ 1
      → (s.mute ≡ 0) × (saver_holds s.saver ≡ 0)
  alone j s e h at inside =
      let one = h.one in
      let l = held-at s.editors j e at in
      (omega (arith, one, l, inside), omega (arith, one, l, inside))

  saver_step-Stuck :
      (j : ℕ) (s s' : System F) → Inv s' → Stuck j s s' → Leads (Stuck j s) (saver_step s')
  unfolding saver_step
  saver_step-Stuck j s s' h k =
      let (e, at, c) = k.there in
      let (m, x) = alone j s' e h at c in
      Leads-map _ _ (saver_at s'.saver s') (saver_at-Stuck j s'.saver s' m x)
        (λ t l. record { there = (e, rw (l.2) at, c); file = l.0 ∙ k.file; table = l.1 ∙ k.table })

  editor_step-Stuck :
      (j : ℕ) (s s' : System F) (i : ℕ) (choice : Choice) (cg : F)
      → i ≢ j
      → Inv s'
      → Stuck j s s'
      → Leads (Stuck j s) (editor_step i choice cg s')
  unfolding editor_step editor_place
  editor_step-Stuck j s s' i choice cg apart h k =
      let (e, at, c) = k.there in
      let (m, x) = alone j s' e h at c in
      elim (Option-cases (get_elem? s'.editors i)) [
        | inl n ↦ rw n tt
        | inr (d, ati) ↦
            elim (Option-cases (editor_place choice cg d.length d.place s'.table s'.mute)) [
              | inl n ↦ rw (ati, n) tt
              | inr (r, g) ↦
                  let (sum, table) =
                    subst (Edited d.place s'.table s'.mute) g
                      (editor_place-Edited choice cg d.length d.place s'.table s'.mute) in
                  let l = others-outside s'.editors i j d e apart ati at in
                  let one = h.one in
                  rw (ati, g)
                    (record {
                      there = (
                        e,
                        get_elem?-set_other s'.editors i j (record d { place = r.0 }) apart ∙ at,
                        c,
                      );
                      file = k.file;
                      table = elim table [
                        | inl in_section ↦ absurd (omega (arith, l, one, c, in_section))
                        | inr same ↦ same ∙ k.table
                      ];
                    })
            ]
      ]

  pub Run-Stuck :
      (j : ℕ) (s s' : System F)
      → Inv s
      → (e : Editor) → get_elem? s.editors j ≡ some e
      → holds e.place ≡ 1
      → RunWithout j s s'
      → Stuck j s s'
  Run-Stuck j s s' h e at c begins_without = record {
    there = (e, at, c);
    file = refl;
    table = refl;
  }
  Run-Stuck j s s' h e at c (saves_without s₁ s₂ r f) =
      Leads-value (Stuck j s) (saver_step s₁) s'
        (saver_step-Stuck j s s₁ (Run-Inv_after s s₁ h (without-Run j s s s₁ begins r))
          (Run-Stuck j s s₁ h e at c r))
        f
  Run-Stuck j s s' h e at c (edits_without s₁ s₂ i choice cg apart r f) =
      Leads-value (Stuck j s) (editor_step i choice cg s₁) s'
        (editor_step-Stuck j s s₁ i choice cg apart
          (Run-Inv_after s s₁ h (without-Run j s s s₁ begins r)) (Run-Stuck j s s₁ h e at c r))
        f
