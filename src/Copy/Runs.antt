-- ===== src/Copy/Runs.antt =====
-- The runs of the two processes, step by step.
use mathlib.Core.List.{append-nil}
use linux_programming.Prelude.{
  ℕ, ◌+◌, ◌*◌, ◌/◌, ◌%◌, ◌≤◌, Bool, true, false, ◌||◌, some, List, [], ◌∷◌, ◌≡◌, ◌⊎◌, inl, inr,
  refl, sym, ap, subst, ◌∙◌, arith, ◌==◌, if◌then◌else◌, length, ltb,
}
use linux_programming.Copy.{ended, finished, System, start, parent_step, child_step}
use linux_programming.Copy.Phases.{
  Phase, asks, sends, sent, writes, answers, answered, last, over, state, Facts, Reached, Keeps,
}
use linux_programming.Copy.Turns.{start-Reached, parent-Reached, child-Reached}

-- Where `stored k` is what a write in step `k` stores: a run of `k` steps to a state.
module _ (stored : ℕ → ℕ) (file : List ℕ) where
  pub data Run : ℕ → System → Type 0 where
    begin : Run 0 (start file)
    parent_goes : (k : ℕ) (s s' : System) → Run k s → parent_step s ≡ some s' → Run (k + 1) s'
    child_goes :
        (k : ℕ) (s s' : System) → Run k s → child_step (stored k) s ≡ some s' → Run (k + 1) s'

  -- Every write stores all that it is given.
  abbrev pub Whole : Type 0
  Whole = (k : ℕ) → 100 ≤ stored k

  Run-Reached : (k : ℕ) (s : System) → Run k s → Reached file Whole k s
  Run-Reached k s begin = start-Reached file Whole
  Run-Reached k s (parent_goes j s₁ s' run e) =
      let r = Run-Reached j s₁ run in
      subst (Keeps (Reached file Whole (j + 1))) (ap parent_step (sym r.shape) ∙ e)
        (parent-Reached file Whole j r.i r.o r.n r.b r.ph r.facts)
  Run-Reached k s (child_goes j s₁ s' run e) =
      let r = Run-Reached j s₁ run in
      subst (Keeps (Reached file Whole (j + 1))) (ap (child_step (stored j)) (sym r.shape) ∙ e)
        (child-Reached file Whole j r.i r.o r.n r.b (stored j) r.ph (λ w. w j) r.facts)

  -- Both processes have ended.
  abbrev pub Done : System → Type 0
  Done s = (s.parent ≡ ended) × (s.child ≡ finished)

  -- A process can go on.
  abbrev pub Goes : ℕ → System → Type 0
  Goes k s = (s' : System) × ((parent_step s ≡ some s') ⊎ (child_step (stored k) s ≡ some s'))

  phase-Goes :
      (k : ℕ) (i o : List ℕ) (n : ℕ) (b : Bool) (ph : Phase)
      → Facts file Whole k ph i o n b
      → Done (state i o n b ph) ⊎ Goes k (state i o n b ph)
  unfolding parent_step child_step
  phase-Goes k [] o n b asks f = inr (_, inl refl)
  phase-Goes k (x ∷ i) o n b asks f = inr (_, inl refl)
  phase-Goes k i o n b (sends c) f = inr (_, inl refl)
  phase-Goes k i o n b (sent []) f = absurd (let t = f.fits.0 in omega arith)
  phase-Goes k i o n b (sent (x ∷ c)) f = inr (_, inr refl)
  phase-Goes k i o n b (writes c) f = inr (_, inr refl)
  phase-Goes k i o n b (answers c) f = inr (_, inr refl)
  phase-Goes k i o n b answered f = inr (_, inl refl)
  phase-Goes k i o n b last f = inr (_, inr refl)
  phase-Goes k i o n b over f = inl (refl, refl)

  -- There is no deadlock: in each state of a run both processes have ended, or one of them can go on,
  -- whatever a write stores.
  pub Run-Goes : (k : ℕ) (s : System) → Run k s → Done s ⊎ Goes k s
  Run-Goes k s run =
      let r = Run-Reached k s run in
      subst (λ (t : System). Done t ⊎ Goes k t) (sym r.shape)
        (phase-Goes k r.i r.o r.n r.b r.ph r.facts)

  -- What is left behind.
  abbrev pub Left : System → Type 0
  Left s =
      (Whole → s.output ≡ file)
      × (s.printed ≡ (if length file % 100 == 0 then 0 else 1))
      × (s.overrun ≡ ltb 99 (length file))

  phase-Left :
      (k : ℕ) (i o : List ℕ) (n : ℕ) (b : Bool)
      → Facts file Whole k over i o n b
      → Left (state i o n b over)
  phase-Left k (x ∷ i) o n b f =
      absurd (let e : length (x ∷ i) ≡ 0 = ap length f.fits in omega arith)
  phase-Left k [] o n b f = (
    (λ w. sym (append-nil o) ∙ f.content w),
    let t = f.messages in omega arith,
    same b ∙ f.overran,
  )
    where
      same : (b : Bool) → b ≡ (b || false)
      same true = refl
      same false = refl

  Done-over : (i o : List ℕ) (n : ℕ) (b : Bool) (ph : Phase) → Done (state i o n b ph) → ph ≡ over
  Done-over i o n b asks d = absurd (let e = d.0 in cc)
  Done-over i o n b (sends c) d = absurd (let e = d.0 in cc)
  Done-over i o n b (sent c) d = absurd (let e = d.0 in cc)
  Done-over i o n b (writes c) d = absurd (let e = d.0 in cc)
  Done-over i o n b (answers c) d = absurd (let e = d.0 in cc)
  Done-over i o n b answered d = absurd (let e = d.0 in cc)
  Done-over i o n b last d = absurd (let e = d.1 in cc)
  Done-over i o n b over d = refl

  module _ (k : ℕ) (s : System) (run : Run k s) where
    -- Where both have ended, the facts of the last phase.
    final :
        Done s
        → (i o : List ℕ) × (n : ℕ) × (b : Bool) × (s ≡ state i o n b over)
          × Facts file Whole k over i o n b
    final done =
        let r = Run-Reached k s run in
        let at : r.ph ≡ over = Done-over r.i r.o r.n r.b r.ph (subst Done r.shape done) in
        (
          r.i,
          r.o,
          r.n,
          r.b,
          r.shape ∙ ap (state r.i r.o r.n r.b) at,
          subst (λ (ph : Phase). Facts file Whole k ph r.i r.o r.n r.b) at r.facts,
        )

    -- A run has at most six steps for each chunk of 100 bytes and two more, and exactly so many once both
    -- processes have ended, whatever a write stores.
    pub Run-steps :
        (k ≤ 6 * ((length file + 99) / 100) + 2) × (Done s → k ≡ 6 * ((length file + 99) / 100) + 2)
    Run-steps =
        let r = Run-Reached k s run in
        let t = r.facts.clock in
        (
          omega arith,
          (λ done. let (i, o, n, b, shape, f) = final done in let c = f.clock in omega arith),
        )

    -- Once both have ended: if every write stored all, the new file is the old one; the message has been printed
    -- once, or not at all where the length is a multiple of 100; and a zero was written behind a buffer exactly
    -- where the file has 100 bytes or more.
    pub Run-copies : Done s → Left s
    Run-copies done =
        let (i, o, n, b, shape, f) = final done in subst Left (sym shape) (phase-Left k i o n b f)
