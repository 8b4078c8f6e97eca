-- ===== src/Students/Mutex/Moves.antt =====
-- The semaphore of X.c and Y.c: what each step of the processes keeps.
use linux_programming.Prelude.{
  ℕ, zero, suc, ◌+◌, ◌≤◌, Option, none, some, List, [], ◌∷◌, ◌++◌, ◌≡◌, ◌⊎◌, inl, inr, refl, sym,
  ◌∙◌, ap, subst, arith, ◌==◌, Bool-cases, Option-cases, get_elem?, set, take, ltb, Leads,
}
use linux_programming.Students.{Student, Table, updated_roll, search, update_round}
use linux_programming.Students.Mutex.{
  Saver, asleep, woken, saving, Place, menu, updating, astray, gone, Choice, searches, updates,
  exits, Editor, System, saver_at, saver_step, rounded, editor_place, editor_step,
}

-- Who is in the section, or has ended there.
abbrev pub holds : Place → ℕ
holds menu = 0
holds (updating i roll) = 1
holds astray = 1
holds gone = 0

abbrev pub held : List Editor → ℕ
held [] = 0
held (e ∷ es) = holds e.place + held es

pub held-set :
    (es : List Editor) (j : ℕ) (e e' : Editor)
    → get_elem? es j ≡ some e
    → held (set es j e') + holds e.place ≡ held es + holds e'.place
held-set [] j e e' at = absurd (cc)
held-set (d ∷ es) zero e e' at =
    let same : holds d.place ≡ holds e.place =
      ap (λ (o : Option Editor). elim o [ none ↦ 0 | some c ↦ holds c.place ]) at in
    omega (arith, same)
held-set (d ∷ es) (suc j) e e' at = omega (arith, held-set es j e e' at)

pub held-at :
    (es : List Editor) (j : ℕ) (e : Editor) → get_elem? es j ≡ some e → holds e.place ≤ held es
held-at [] j e at = absurd (cc)
held-at (d ∷ es) zero e at =
    let same : holds d.place ≡ holds e.place =
      ap (λ (o : Option Editor). elim o [ none ↦ 0 | some c ↦ holds c.place ]) at in
    omega (arith, same)
held-at (d ∷ es) (suc j) e at = omega (arith, held-at es j e at)

module _ {F : Type 0} where
  abbrev pub saver_holds : Saver F → ℕ
  saver_holds asleep = 0
  saver_holds woken = 0
  saver_holds (saving i written) = 1

  -- What X has written is the beginning of the table.
  abbrev pub Saved : Table F → (len : ℕ) → Saver F → Type 0
  Saved t len asleep = Unit
  Saved t len woken = Unit
  Saved t len (saving i written) = (i ≤ len) × (written ≡ take i t)

  -- One process at most is in the section, and then the semaphore is 0; X saves the table as it stands.
  pub record Inv (s : System F) : Type 0 where
    pub one : s.mute + saver_holds s.saver + held s.editors ≡ 1
    pub saved : Saved s.table s.len s.saver

  take-next :
      (t : Table F) (i : ℕ) (r : Student F)
      → get_elem? t i ≡ some r
      → take i t ++ r ∷ [] ≡ take (i + 1) t
  take-next [] i r at = absurd (cc)
  take-next (x ∷ t) zero r at = let same : x ≡ r = cc in ap (λ (y : Student F). y ∷ []) (sym same)
  take-next (x ∷ t) (suc i) r at =
      let e : suc (i + 1) ≡ suc i + 1 = omega arith in
      ap (λ (l : Table F). x ∷ l) (take-next t i r at) ∙ ap (λ (n : ℕ). take n (x ∷ t)) e

  free-Saved : (t : Table F) (len : ℕ) (x : Saver F) → saver_holds x ≡ 0 → Saved t len x
  free-Saved t len asleep h = tt
  free-Saved t len woken h = tt
  free-Saved t len (saving i written) h = absurd (omega (arith, h))

  saver_at-Inv :
      (x : Saver F) (s : System F)
      → s.mute + saver_holds x + held s.editors ≡ 1
      → Saved s.table s.len x
      → Leads Inv (saver_at x s)
  saver_at-Inv asleep s one saved = elim (Option-cases (get_elem? s.table s.len)) [
    | inl n ↦ rw n tt
    | inr (e, at) ↦ rw at (elim (Bool-cases (e.roll == updated_roll)) [
      | inl f ↦ rw f (record { one = one; saved = tt })
      | inr f ↦ rw f (record { one = one; saved = tt })
    ])
  ]
  saver_at-Inv woken s one saved = elim (Bool-cases (s.mute == 0)) [
    | inl f ↦ rw f tt
    | inr f ↦ rw f (record { one = ground (arith, one, f); saved = (omega arith, refl) })
  ]
  saver_at-Inv (saving i written) s one saved = elim (Bool-cases (ltb i s.len)) [
    | inl f ↦ elim (Option-cases (get_elem? s.table i)) [
      | inl n ↦ rw (f, n) tt
      | inr (r, at) ↦
          rw (f, at)
            (record {
              one = one;
              saved = (
                ground (arith, f),
                ap (λ (l : Table F). l ++ r ∷ []) saved.1 ∙ take-next s.table i r at,
              );
            })
    ]
    | inr f ↦ rw f (record { one = omega (arith, one); saved = tt })
  ]

  pub saver_step-Inv : (s : System F) → Inv s → Leads Inv (saver_step s)
  unfolding saver_step
  saver_step-Inv s h = saver_at-Inv s.saver s h.one h.saved

  -- A step of a Y at a place changes the table only while the Y is in the section.
  abbrev pub Edited : Place → Table F → (mute : ℕ) → Option (Place × Table F × ℕ) → Type 0
  Edited p t mute none = Unit
  Edited p t mute (some r) = (r.2 + holds r.0 ≡ mute + holds p) × ((holds p ≡ 1) ⊎ (r.1 ≡ t))

  rounded-Edited :
      (i roll : ℕ) (t : Table F) (mute : ℕ) (o : Option (Option (Table F)))
      → Edited (updating i roll) t mute (some (rounded i roll t mute o))
  rounded-Edited i roll t mute none = (refl, inl refl)
  rounded-Edited i roll t mute (some none) = (omega arith, inl refl)
  rounded-Edited i roll t mute (some (some t')) = (refl, inl refl)

  pub editor_place-Edited :
      (choice : Choice) (cg : F) (length : ℕ) (p : Place) (t : Table F) (mute : ℕ)
      → Edited p t mute (editor_place choice cg length p t mute)
  unfolding editor_place
  editor_place-Edited (searches roll) cg length menu t mute = elim (Option-cases (search roll t)) [
    | inl n ↦ rw n (refl, inr refl)
    | inr (found, e) ↦ rw e (refl, inr refl)
  ]
  editor_place-Edited (updates roll) cg length menu t mute = elim (Bool-cases (mute == 0)) [
    | inl f ↦ rw f tt
    | inr f ↦ rw f (ground (arith, f), inr refl)
  ]
  editor_place-Edited exits cg length menu t mute = (refl, inr refl)
  editor_place-Edited choice cg length (updating i roll) t mute =
      rounded-Edited i roll t mute (update_round i length roll (λ j. cg) t)
  editor_place-Edited choice cg length astray t mute = tt
  editor_place-Edited choice cg length gone t mute = tt

  edited-Saved :
      (s : System F) (j : ℕ) (e : Editor) (t : Table F)
      → get_elem? s.editors j ≡ some e
      → Inv s
      → (holds e.place ≡ 1) ⊎ (t ≡ s.table)
      → Saved t s.len s.saver
  edited-Saved s j e t at h (inl inside) =
      free-Saved t s.len s.saver (omega (arith, h.one, inside, held-at s.editors j e at))
  edited-Saved s j e t at h (inr same) =
      subst (λ (u : Table F). Saved u s.len s.saver) (sym same) h.saved

  pub editor_step-Inv :
      (j : ℕ) (choice : Choice) (cg : F) (s : System F)
      → Inv s
      → Leads Inv (editor_step j choice cg s)
  unfolding editor_step
  editor_step-Inv j choice cg s h = elim (Option-cases (get_elem? s.editors j)) [
    | inl n ↦ rw n tt
    | inr (e, at) ↦ elim (Option-cases (editor_place choice cg e.length e.place s.table s.mute)) [
      | inl n ↦ rw (at, n) tt
      | inr (r, f) ↦
          let (sum, table) =
            subst (Edited e.place s.table s.mute) f
              (editor_place-Edited choice cg e.length e.place s.table s.mute) in
          rw (at, f)
            (record {
              one =
                  let others = held-set s.editors j e (record e { place = r.0 }) at in
                  omega (arith, h.one, sum, others);
              saved = edited-Saved s j e r.1 at h table;
            })
    ]
  ]
