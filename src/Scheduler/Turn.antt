-- ===== src/Scheduler/Turn.antt =====
-- Runs of the calls of thread.c: what holds throughout, and when a thread of the high queue gets its turn.
use mathlib.Core.List.{append_assoc, append-nil}
use linux_programming.Prelude.{
  ℕ, ◌+◌, ◌<◌, Bool, Option, List, [], ◌∷◌, ◌++◌, ◌≡◌, ◌⊎◌, inl, inr, refl, sym, ◌∙◌, ap, arith,
  ◌==◌, Bool-cases, length,
}
use linux_programming.Prelude.Int8.{negative}
use linux_programming.Scheduler.{
  Thread, Kernel, thread_tick, thread_yield, thread_block, thread_exit, thread_unblock,
  thread_create,
}
use linux_programming.Scheduler.Next.{next_of}
use linux_programming.Scheduler.Calls.{
  Leaves, requeued, thread_yield-Leaves, thread_block-Leaves, thread_exit-Leaves,
}
use linux_programming.Scheduler.Wake.{thread_unblock-Enters, thread_create-Creates}
use linux_programming.Scheduler.Tick.{Ticks, thread_tick-Ticks}
use linux_programming.Scheduler.Aging.{expired}
use linux_programming.Scheduler.Contracts.{
  returned, yields_outside, blocks_outside, exits_outside, unblocks_blocked, creates_given,
}
use linux_programming.Scheduler.Steps.{
  Step, interrupts, ticks, yields, blocks, exits, unblocks, creates, IsGood, Step-IsGood,
}

-- The steps that give the processor away.
abbrev pub switches : {k k' : Kernel} → Step k k' → ℕ
switches (interrupts k off handler yield) = 0
switches (ticks k k' e) = 0
switches (yields k k' e) = 1
switches (blocks k k' e) = 1
switches (exits k k' a b c e) = 1
switches (unblocks k k' p e) = 0
switches (creates k k' page function name priority tid fresh e) = 0

-- Steps from `k`, of which `n` give the processor away.
pub data Run (k : Kernel) : ℕ → Kernel → Type 0 where
  begins : Run k 0 k
  goes : (n : ℕ) (k₁ k₂ : Kernel) → Run k n k₁ → (s : Step k₁ k₂) → Run k (n + switches s) k₂

-- The thread runs at some state of the run.
abbrev pub RunsIn : (x : ℕ) {k k' : Kernel} {n : ℕ} → Run k n k' → Type 0
RunsIn x {k} begins = k.current ≡ x
RunsIn x (goes n k₁ k₂ r s) = (k₂.current ≡ x) ⊎ RunsIn x r

-- However many calls there are, in whatever order, none leads out of the good kernels.
pub Run-IsGood : {k k' : Kernel} {n : ℕ} → IsGood k → Run k n k' → IsGood k'
Run-IsGood g begins = g
Run-IsGood g (goes n k₁ k₂ r s) = Step-IsGood s (Run-IsGood g r)

-- The thread at `x` stands in the high queue, `n` places nearer to its head than behind `xs`.
abbrev pub Ahead : (x : ℕ) (xs : List ℕ) (n : ℕ) → Kernel → Type 0
Ahead x xs n k =
    (xs' : List ℕ) × (ys : List ℕ) × (k.ready_list ≡ xs' ++ x ∷ ys) × (length xs' + n ≡ length xs)

abbrev Turn : (x : ℕ) (xs : List ℕ) (n : ℕ) → Kernel → Type 0
Turn x xs n k = (k.current ≡ x) ⊎ Ahead x xs n k

module _ (x : ℕ) (xs ys : List ℕ) (k' : Kernel) where
  -- The queue has grown at its end.
  grown : (zs : List ℕ) → k'.ready_list ≡ (xs ++ x ∷ ys) ++ zs → Turn x xs 0 k'
  grown zs e = inr (xs, ys ++ zs, e ∙ append_assoc xs (x ∷ ys) zs, omega arith)

  kept : k'.ready_list ≡ xs ++ x ∷ ys → Turn x xs 0 k'
  kept e = inr (xs, ys, e, omega arith)

-- The head of the queue is taken.
taken :
    (x : ℕ) (xs ys hs ls : List ℕ) (idle : ℕ) (k k' : Kernel) (o : Option Thread) (al : List ℕ)
    → hs ≡ xs ++ x ∷ ys
    → Leaves k o al (next_of hs ls idle).0 (next_of hs ls idle).1 (next_of hs ls idle).2 k'
    → Turn x xs 1 k'
taken x [] ys hs ls idle k k' o al e l = inl (l.current ∙ (rw e refl))
taken x (p ∷ xs) ys hs ls idle k k' o al e l = inr (xs, ys, l.high ∙ (rw e refl), omega arith)

requeued-high :
    (p idle : ℕ) (low : Bool) (hs ls : List ℕ)
    → (zs : List ℕ) × ((requeued p idle low hs ls).0 ≡ hs ++ zs)
requeued-high p idle low hs ls = elim (Bool-cases (p == idle)) [
  | inl e ↦ rw e ([], sym (append-nil hs))
  | inr e ↦ rw e (elim (Bool-cases low) [
    | inl f ↦ rw f ([], sym (append-nil hs))
    | inr f ↦ rw f (p ∷ [], refl)
  ])
]

-- A step takes the thread to the processor only from the head, and else a place on if it gives the processor
-- away.
Step-Turn :
    (x : ℕ) (xs ys : List ℕ) {k k' : Kernel} (s : Step k k')
    → IsGood k
    → k.ready_list ≡ xs ++ x ∷ ys
    → Turn x xs (switches s) k'
Step-Turn x xs ys (interrupts k off handler yield) g e =
    kept x xs ys (record k { interrupts = off; in_handler = handler; yield_on_return = yield }) e
Step-Turn x xs ys (ticks k k' f) g e =
    let t = g.valid.current.0 in
    let h = returned (Ticks k t) (thread_tick k) k' (thread_tick-Ticks k g.valid) f in
    elim (Bool-cases (negative t.count)) [
      | inl n ↦ kept x xs ys k' ((rw n at h.high) ∙ e)
      | inr n ↦
          grown x xs ys k' (expired k.mem k.ready_list_low)
            ((rw n at h.high) ∙ ap (λ (l : List ℕ). l ++ expired k.mem k.ready_list_low) e)
    ]
Step-Turn x xs ys (yields k k' f) g e =
    let (zs, r) =
      requeued-high k.current k.idle_thread (negative g.valid.current.0.count) k.ready_list
        k.ready_list_low in
    taken x xs (ys ++ zs) _ _ k.idle_thread k k' _ _
      (r ∙ ap (λ (l : List ℕ). l ++ zs) e ∙ append_assoc xs (x ∷ ys) zs)
      (returned _ (thread_yield k) k'
        (thread_yield-Leaves k g.valid (yields_outside k g.valid k' f)) f)
Step-Turn x xs ys (blocks k k' f) g e =
    let (out, off) = blocks_outside k g.valid k' f in
    taken x xs ys k.ready_list k.ready_list_low k.idle_thread k k' _ _ e
      (returned _ (thread_block k) k' (thread_block-Leaves k g.valid out off) f)
Step-Turn x xs ys (exits k k' a b c f) g e =
    taken x xs ys k.ready_list k.ready_list_low k.idle_thread k k' _ _ e (
      returned _ (thread_exit k) k'
        (thread_exit-Leaves k g.valid (exits_outside k g.valid k' f) a b c) f)
Step-Turn x xs ys (unblocks k k' p f) g e =
    let (t, at, b) = unblocks_blocked k g.valid k' p f in
    let h =
      returned _ (thread_unblock p k) k'
        (thread_unblock-Enters k g.valid p t at b (g.counts p t at)) f in
    elim (Bool-cases (negative t.count)) [
      | inl n ↦ kept x xs ys k' ((rw n at h.high) ∙ e)
      | inr n ↦ grown x xs ys k' (p ∷ []) ((rw n at h.high) ∙ ap (λ (l : List ℕ). l ++ p ∷ []) e)
    ]
Step-Turn x xs ys (creates k k' page function name priority tid fresh f) g e =
    let (code, given) = creates_given k g.valid (tid, k') page function name priority f in
    elim given [
      | inl n ↦ kept x xs ys k' (ap (λ (r : Option ℕ × Kernel). r.1.ready_list) n.1 ∙ e)
      | inr r ↦
          let h =
            returned _ (thread_create page function name priority k) (tid, k')
              (thread_create-Creates k g.valid page function name priority fresh r.0 r.1 code) f in
          grown x xs ys k' (page ∷ []) (h.high ∙ ap (λ (l : List ℕ). l ++ page ∷ []) e)
    ]

-- A thread of the high queue behind those in `xs` runs during the calls that follow, or each call that gives the
-- processor away brings it a place nearer to the head.
Run-Ahead :
    (x : ℕ) (xs ys : List ℕ) {k k' : Kernel} {n : ℕ} (r : Run k n k')
    → IsGood k
    → k.ready_list ≡ xs ++ x ∷ ys
    → RunsIn x r ⊎ Ahead x xs n k'
Run-Ahead x xs ys begins g e = inr (xs, ys, e, omega arith)
Run-Ahead x xs ys (goes n k₁ k₂ r s) g e = elim (Run-Ahead x xs ys r g e) [
  | inl before ↦ inl (inr before)
  | inr (xs', ys', e', c) ↦ elim (Step-Turn x xs' ys' s (Run-IsGood g r) e') [
    | inl now ↦ inl (inl now)
    | inr (zs, us, e'', c') ↦ inr (zs, us, e'', omega (arith, c, c'))
  ]
]

-- A thread of the high queue with the threads `xs` before it runs at some state of every run of calls and
-- interrupts in which the processor is given away more often than there are threads in `xs`.
pub Run-RunsIn :
    (x : ℕ) (xs ys : List ℕ) (k k' : Kernel) (n : ℕ) (r : Run k n k')
    → IsGood k
    → k.ready_list ≡ xs ++ x ∷ ys
    → length xs < n
    → RunsIn x r
Run-RunsIn x xs ys k k' n r g e h = elim (Run-Ahead x xs ys r g e) [
  | inl runs ↦ runs
  | inr (xs', ys', e', c) ↦ absurd (omega (arith, c, h))
]
