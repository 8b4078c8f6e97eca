-- ===== src/Students/Mutex/Lost.antt =====
-- An update in Y.c, step by step, up to its access behind the segment.
use linux_programming.Prelude.{
  ℕ, zero, suc, ◌+◌, ◌≤◌, true, Option, none, some, List, [], ◌∷◌, ◌++◌, ◌≡◌, inl, inr, refl, ◌∙◌,
  ap, subst, arith, ◌==◌, Bool-cases, Option-cases, get_elem?, set, length, get_elem?-set, set-set,
  length-set, past_end, Leads, Leads-value,
}
use linux_programming.Students.{
  Student, Table, Outcome, done, off_table, end_roll, updated_roll, write_roll, change,
  update_round, update_from, update,
}
use linux_programming.Students.Table.{Ends, Real}
use linux_programming.Students.Update.{changed, has, update-changed}
use linux_programming.Students.Mutex.{
  Place, menu, updating, updates, exits, Editor, System, rounded, editor_place, editor_step, Run,
  begins, edits,
}
use linux_programming.Students.Mutex.Section.{opened, opened-Inv, at_menu, Run-Inv_after}
use linux_programming.Students.Mutex.Stuck.{RunWithout, Run-Stuck}

pub at-start :
    (lengths : List ℕ) (j n : ℕ)
    → get_elem? lengths j ≡ some n
    → get_elem? (at_menu lengths) j ≡ some (record { length = n; place = menu })
at-start [] j n h = absurd (cc)
at-start (m ∷ ns) zero n h =
    ap
      (λ (o : Option ℕ). elim o [
        | none ↦ none
        | some k ↦ some (record { length = k; place = menu })
      ])
      h
at-start (m ∷ ns) (suc j) n h = at-start ns j n h

module _ {F : Type 0} where
  length-write_roll :
      (i roll : ℕ) (t : Table F) → Leads (λ u. length u ≡ length t) (write_roll i roll t)
  unfolding write_roll
  length-write_roll i roll t = elim (Option-cases (get_elem? t i)) [
    | inl n ↦ rw n tt
    | inr (e, at) ↦ rw at (length-set t i (record e { roll = roll }))
  ]

  -- A round keeps the length of the segment, and where it is behind its end it fails.
  abbrev Fits : Table F → Option (Option (Table F)) → Type 0
  Fits t none = Unit
  Fits t (some none) = Unit
  Fits t (some (some u)) = length u ≡ length t

  update_round-Fits :
      (i len roll : ℕ) (cgpa : ℕ → F) (t : Table F) → Fits t (update_round i len roll cgpa t)
  unfolding update_round change
  update_round-Fits i len roll cgpa t = elim (Option-cases (get_elem? t i)) [
    | inl n ↦ rw n tt
    | inr (e, at) ↦ elim (Bool-cases (e.roll == end_roll)) [
      | inl f ↦ rw (at, f) tt
      | inr f ↦ elim (Bool-cases (e.roll == roll)) [
        | inl g ↦
            let u = set t i (record e { cg = cgpa i }) in
            elim (Option-cases (write_roll len updated_roll u)) [
              | inl n ↦ rw (at, f, g, n) tt
              | inr (v, w) ↦
                  rw (at, f, g, w)
                    (Leads-value (λ x. length x ≡ length u) (write_roll len updated_roll u) v
                        (length-write_roll len updated_roll u) w
                      ∙ length-set t i (record e { cg = cgpa i }))
            ]
        | inr g ↦ rw (at, f, g) refl
      ]
    ]
  ]

  update_round-past :
      (i len roll : ℕ) (cgpa : ℕ → F) (t : Table F)
      → length t ≤ i
      → update_round i len roll cgpa t ≡ none
  unfolding update_round
  update_round-past i len roll cgpa t h = rw (past_end t i h) refl

  module _ (s₀ s : System F) (j : ℕ) (e : Editor) (at : get_elem? s.editors j ≡ some e) (roll : ℕ)
      (cgpa : ℕ → F) where
    -- The state with the Y at another place.
    abbrev moved : Place → Table F → ℕ → System F
    moved p t mute = record s {
      table = t;
      mute = mute;
      editors = set s.editors j (record e { place = p });
    }

    -- A run to the end of an update, or to the round that accesses an entry behind the segment.
    abbrev Arrives : ℕ → Outcome F → Type 0
    Arrives mute (done t) = Run s₀ (moved menu t (mute + 1))
    Arrives mute (off_table t) =
        (i : ℕ) × (update_round i e.length roll cgpa t ≡ none)
        × Run s₀ (moved (updating i roll) t mute)

    editor_step-moved :
        (i : ℕ) (t : Table F) (mute : ℕ)
        → let (p, t', mute') = rounded i roll t mute (update_round i e.length roll cgpa t) in
          editor_step j exits (cgpa i) (moved (updating i roll) t mute) ≡ some (moved p t' mute')
    unfolding editor_step editor_place update_round
    editor_step-moved i t mute =
        let here = get_elem?-set s.editors j e (record e { place = updating i roll }) at in
        let (p, t', mute') = rounded i roll t mute (update_round i e.length roll cgpa t) in
        rw
          (
            here,
            set-set s.editors j (record e { place = updating i roll }) (record e { place = p }),
          )
          refl

    -- The state after a round with the result `o`.
    abbrev after : (i : ℕ) → Table F → ℕ → Option (Option (Table F)) → System F
    after i t mute o = let (p, t', mute') = rounded i roll t mute o in moved p t' mute'

    round-Run :
        (i : ℕ) (t : Table F) (mute : ℕ) (o : Option (Option (Table F)))
        → update_round i e.length roll cgpa t ≡ o
        → Run s₀ (moved (updating i roll) t mute)
        → Run s₀ (after i t mute o)
    round-Run i t mute o h r =
        subst (λ (q : Option (Option (Table F))). Run s₀ (after i t mute q)) h
          (edits (moved (updating i roll) t mute) _ j exits (cgpa i) r (editor_step-moved i t mute))

    -- The steps of an update lead to where the function `update_from` does.
    update_from-Run :
        (left i : ℕ) (t : Table F) (mute : ℕ)
        → i + left ≡ length t
        → Run s₀ (moved (updating i roll) t mute)
        → Arrives mute (update_from left i e.length roll cgpa t)
    unfolding update_from
    update_from-Run zero i t mute l r =
        (i, update_round-past i e.length roll cgpa t (omega (arith, l)), r)
    update_from-Run (suc left) i t mute l r =
        elim (Option-cases (update_round i e.length roll cgpa t)) [
          | inl n ↦ rw n (i, n, r)
          | inr (none, h) ↦ rw h (round-Run i t mute (some none) h r)
          | inr (some u, h) ↦
              let same : length u ≡ length t =
                subst (Fits t) h (update_round-Fits i e.length roll cgpa t) in
              rw h (
                update_from-Run left (i + 1) u mute (omega (arith, same, l))
                  (round-Run i t mute (some (some u)) h r))
        ]

  enters :
      (s : System F) (j : ℕ) (e : Editor) (at : get_elem? s.editors j ≡ some e) (roll : ℕ)
      (cgpa : ℕ → F)
      → e.place ≡ menu
      → s.mute ≡ 1
      → editor_step j (updates roll) (cgpa 0) s
        ≡ some (moved s s j e at roll cgpa (updating 0 roll) s.table 0)
  unfolding editor_step editor_place
  enters s j e at roll cgpa free one = rw (at, free, one) refl

  -- An update that a Y chooses at its menu is carried out by its steps, up to the end or behind the segment.
  pub update-Run :
      (s : System F) (j : ℕ) (e : Editor) (at : get_elem? s.editors j ≡ some e) (roll : ℕ)
      (cgpa : ℕ → F)
      → e.place ≡ menu
      → s.mute ≡ 1
      → Arrives s s j e at roll cgpa 0 (update e.length roll cgpa s.table)
  unfolding update
  update-Run s j e at roll cgpa free one =
      update_from-Run s s j e at roll cgpa (length s.table) 0 s.table 0 (omega arith) (
        edits s (moved s s j e at roll cgpa (updating 0 roll) s.table 0) j (updates roll) (cgpa 0)
          begins (enters s j e at roll cgpa free one))

  -- X and the Ys have started with a loaded table with no other roll -1, and a Y updates a record. Its steps lead to
  -- a state in which every entry with the roll has its new value, and in which its next round accesses an entry
  -- behind the segment. Unless it makes that round, and so if the access ends it, the file stays as it was, in
  -- whatever way the other processes go on.
  pub update-lost :
      (rs : List (Student F)) (t : Table F) (marked : Ends end_roll rs t) (lengths : List ℕ)
      (j roll : ℕ) (cgpa : ℕ → F)
      → Real rs
      → Real marked.free
      → has roll rs ≡ true
      → get_elem? lengths j ≡ some (length rs)
      → (s : System F) × Run (opened t (length rs) rs lengths) s
        × (s.table
            ≡ changed roll cgpa 0 (rs ++ record marked.mark { roll = updated_roll } ∷ marked.free))
        × ((i : ℕ) × (update_round i (length rs) roll cgpa s.table ≡ none)
            × (get_elem? s.editors j
                ≡ some (record { length = length rs; place = updating i roll })))
        × ((s' : System F) → RunWithout j s s' → s'.file ≡ rs)
  update-lost rs t marked lengths j roll cgpa real free found h =
      let s₀ = opened t (length rs) rs lengths in
      let e : Editor = record { length = length rs; place = menu } in
      let at = at-start lengths j (length rs) h in
      let u =
        changed roll cgpa 0 (rs ++ record marked.mark { roll = updated_roll } ∷ marked.free) in
      let ends : update (length rs) roll cgpa t ≡ off_table u =
        update-changed roll cgpa rs t marked real free ∙ (rw found refl) in
      let (i, past, r) : Arrives s₀ s₀ j e at roll cgpa 0 (off_table u) =
        subst (λ (o : Outcome F). Arrives s₀ s₀ j e at roll cgpa 0 o) ends
          (update-Run s₀ j e at roll cgpa refl refl) in
      let s = moved s₀ s₀ j e at roll cgpa (updating i roll) u 0 in
      let inv = Run-Inv_after s₀ s (opened-Inv t (length rs) rs lengths) r in
      let there = get_elem?-set s₀.editors j e (record e { place = updating i roll }) at in
      (
        s,
        r,
        refl,
        (i, past, there),
        λ s' r'. (Run-Stuck j s s' inv (record e { place = updating i roll }) there refl r').file,
      )
