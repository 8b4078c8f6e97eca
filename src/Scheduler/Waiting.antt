-- ===== src/Scheduler/Waiting.antt =====
-- How long a ready thread waits while the calls of thread.c go on in any order.
use linux_programming.Prelude.{
  ℕ, ◌+◌, ◌≤◌, Bool, true, false, not, Option, none, some, List, ◌∷◌, ◌++◌, ◌≡◌, ◌≢◌, inl, inr,
  refl, sym, ◌∙◌, ap, subst, arith, if◌then◌else◌, Bool-cases, All, All-at, Absent,
}
use linux_programming.Prelude.Int8.{negative}
use linux_programming.Scheduler.{
  Thread, Kernel, thread_tick, thread_yield, thread_block, thread_exit, thread_unblock,
  thread_create,
}
use linux_programming.Scheduler.Invariant.{IsCount, Queued}
use linux_programming.Scheduler.Calls.{
  Leaves, self-Absent, thread_yield-Leaves, thread_block-Leaves, thread_exit-Leaves,
}
use linux_programming.Scheduler.Wake.{thread_unblock-Enters, thread_create-Creates}
use linux_programming.Scheduler.Tick.{Ticks, thread_tick-Ticks}
use linux_programming.Scheduler.Aging.{aged}
use linux_programming.Scheduler.Contracts.{
  returned, yields_outside, blocks_outside, exits_outside, unblocks_blocked, creates_given,
}
use linux_programming.Scheduler.Steps.{
  Step, interrupts, ticks, yields, blocks, exits, unblocks, creates, IsGood, Step-IsGood,
}

-- The page stands in the list.
abbrev pub In : ℕ → List ℕ → Type 0
In x l = (xs ys : List ℕ) × (l ≡ xs ++ x ∷ ys)

In-Absent : (x y : ℕ) (l : List ℕ) → In x l → Absent y l → x ≢ y
In-Absent x y l (xs, ys, e) a = All-at (λ q. q ≢ y) x xs ys (subst (Absent y) e a)

In-All : (P : ℕ → Type 0) (x : ℕ) (l : List ℕ) → In x l → All P l → P x
In-All P x l (xs, ys, e) a = All-at P x xs ys (subst (All P) e a)

-- A thread of the high queue runs.
abbrev pub high_runs : Kernel → Bool
high_runs k = elim (k.mem k.current) [ none ↦ false | some t ↦ not (negative t.count) ]

high_runs_lem :
    (k : Kernel) (t : Thread) → k.mem k.current ≡ some t → high_runs k ≡ not (negative t.count)
high_runs_lem k t e =
    ap (λ (o : Option Thread). elim o [ none ↦ false | some t ↦ not (negative t.count) ]) e

-- The ticks of a step that count for the low queue.
abbrev pub charge : {k k' : Kernel} → Step k k' → ℕ
charge (interrupts k off handler yield) = 0
charge (ticks k k' e) = if high_runs k then 1 else 0
charge (yields k k' e) = 0
charge (blocks k k' e) = 0
charge (exits k k' a b c e) = 0
charge (unblocks k k' p e) = 0
charge (creates k k' page function name priority tid fresh e) = 0

-- Steps from `k` throughout which the thread at `x` stands in the low queue, with `n` ticks that count.
pub data Waits (x : ℕ) (k : Kernel) : ℕ → Kernel → Type 0 where
  begins : In x k.ready_list_low → Waits x k 0 k
  goes :
      (n : ℕ) (k₁ k₂ : Kernel)
      → Waits x k n k₁
      → (s : Step k₁ k₂) → In x k₂.ready_list_low
      → Waits x k (n + charge s) k₂

-- A thread that stays in the low queue has a count one lower.
aged-Down :
    (t : Thread)
    → negative t.count ≡ true
    → IsCount t.count
    → negative (aged t).count ≡ true
    → (aged t).count + 1 ≡ t.count
aged-Down t n c l = ground (arith, n, c, l)

-- What a step does to a thread that waits in the low queue before and after.
module _ (x : ℕ) (k : Kernel) (g : IsGood k) (i : In x k.ready_list_low) where
  queued : Queued k.mem true x
  queued = In-All (Queued k.mem true) x k.ready_list_low i g.valid.queues.low

  -- Its count is `d` lower.
  abbrev Later : ℕ → Kernel → Type 0
  Later d k' = (t' : Thread) × (k'.mem x ≡ some t') × (t'.count + d ≡ queued.0.count)

  same_lem : (k' : Kernel) → k'.mem x ≡ k.mem x → Later 0 k'
  same_lem k' e = (queued.0, e ∙ queued.1, omega arith)

  other : x ≢ k.current
  other = In-Absent x k.current k.ready_list_low i (self-Absent k g.valid).1

  Leaves-Later :
      (k' : Kernel) (o : Option Thread) (al : List ℕ) (p : ℕ) (hs ls : List ℕ)
      → In x k'.ready_list_low
      → Leaves k o al p hs ls k'
      → Later 0 k'
  Leaves-Later k' o al p hs ls i' l =
      let apart : x ≢ k'.current =
        In-Absent x k'.current k'.ready_list_low i' (self-Absent k' l.valid).1 in
      same_lem k' (l.others x (λ z. apart (z ∙ sym l.current)) other)

  Ticks-Later :
      (k' : Kernel)
      → In x k'.ready_list_low
      → Ticks k g.valid.current.0 k'
      → Later (if high_runs k then 1 else 0) k'
  Ticks-Later k' i' h =
      let t = g.valid.current.0 in
      let w = In-All _ x k.ready_list_low i h.waits in
      let same : w.0 ≡ queued.0 = let a = sym w.1 ∙ queued.1 in cc in
      elim (Bool-cases (negative t.count)) [
        | inl n ↦
            rw (high_runs_lem k t g.valid.current.1, n)
              (queued.0, (rw n at w.2) ∙ ap (λ (s : Thread). some s) same, omega arith)
        | inr n ↦
            let q = In-All (Queued k'.mem true) x k'.ready_list_low i' h.valid.queues.low in
            let here : k'.mem x ≡ some (aged queued.0) =
              (rw n at w.2) ∙ ap (λ (s : Thread). some (aged s)) same in
            let still : q.0 ≡ aged queued.0 = let a = sym q.1 ∙ here in cc in
            let low : negative (aged queued.0).count ≡ true =
              subst (λ (s : Thread). negative s.count ≡ true) still q.3 in
            rw (high_runs_lem k t g.valid.current.1, n)
              (aged queued.0, here, aged-Down queued.0 queued.3 queued.4 low)
      ]

Step-Later :
    (x : ℕ) {k k' : Kernel} (g : IsGood k) (i : In x k.ready_list_low) (s : Step k k')
    → In x k'.ready_list_low
    → Later x k g i (charge s) k'
Step-Later x g i (interrupts k off handler yield) i' =
    same_lem x k g i (record k { interrupts = off; in_handler = handler; yield_on_return = yield })
      refl
Step-Later x g i (ticks k k' e) i' =
    Ticks-Later x k g i k' i'
      (returned (Ticks k g.valid.current.0) (thread_tick k) k' (thread_tick-Ticks k g.valid) e)
Step-Later x g i (yields k k' e) i' = Leaves-Later x k g i k' _ _ _ _ _ i' (
    returned _ (thread_yield k) k' (thread_yield-Leaves k g.valid (yields_outside k g.valid k' e))
      e)
Step-Later x g i (blocks k k' e) i' =
    let (out, off) = blocks_outside k g.valid k' e in
    Leaves-Later x k g i k' _ _ _ _ _ i'
      (returned _ (thread_block k) k' (thread_block-Leaves k g.valid out off) e)
Step-Later x g i (exits k k' a b c e) i' = Leaves-Later x k g i k' _ _ _ _ _ i' (
    returned _ (thread_exit k) k'
      (thread_exit-Leaves k g.valid (exits_outside k g.valid k' e) a b c) e)
Step-Later x g i (unblocks k k' p e) i' =
    let (t, at, b) = unblocks_blocked k g.valid k' p e in
    let h =
      returned _ (thread_unblock p k) k'
        (thread_unblock-Enters k g.valid p t at b (g.counts p t at)) e in
    same_lem x k g i k' (
      h.others x (λ s.
        let here : t ≡ (queued x k g i).0 =
          let a = sym at ∙ ap k.mem (sym s) ∙ (queued x k g i).1 in cc in
        ground (arith, here, b, (queued x k g i).2)))
Step-Later x g i (creates k k' page function name priority tid fresh e) i' =
    let (code, given) = creates_given k g.valid (tid, k') page function name priority e in
    elim given [
      | inl n ↦ same_lem x k g i k' (ap (λ (r : Option ℕ × Kernel). r.1.mem x) n.1)
      | inr r ↦
          let h =
            returned _ (thread_create page function name priority k) (tid, k')
              (thread_create-Creates k g.valid page function name priority fresh r.0 r.1 code) e in
          same_lem x k g i k' (
            h.others x
              (λ s. let a = sym fresh ∙ ap k.mem (sym s) ∙ (queued x k g i).1 in absurd (cc)))
    ]

Waits-In : (x : ℕ) {k k' : Kernel} {n : ℕ} → Waits x k n k' → In x k.ready_list_low
Waits-In x (begins i) = i
Waits-In x (goes n k₁ k₂ w s i') = Waits-In x w

-- The state in which a wait stands, and the count of its thread.
Waits-Later :
    (x : ℕ) {k k' : Kernel} {n : ℕ} (t : Thread)
    → IsGood k
    → k.mem x ≡ some t
    → Waits x k n k'
    → (IsGood k')
      × (In x k'.ready_list_low)
      × ((t' : Thread) × (k'.mem x ≡ some t') × (t'.count + n ≡ t.count))
Waits-Later x t g e (begins i) = (g, i, (t, e, omega arith))
Waits-Later x t g e (goes n k₁ k₂ w s i') =
    let (g₁, i, (u, at, c)) = Waits-Later x t g e w in
    let (u', at', c') = Step-Later x g₁ i s i' in
    let q = queued x k₁ g₁ i in
    let same : u ≡ q.0 = let a = sym at ∙ q.1 in cc in
    let counts : u.count ≡ q.0.count = ap (λ (v : Thread). v.count) same in
    (Step-IsGood s g₁, i', (u', at', omega (arith, c, c', counts)))

-- However the calls and the interrupts follow each other: while a thread stays in the low queue, a thread
-- of the high queue runs at no more ticks than its count is above -24, which is 23 at most.
pub Waits-bound :
    (x : ℕ) (k k' : Kernel) (n : ℕ)
    → IsGood k
    → Waits x k n k'
    → (t : Thread) × (k.mem x ≡ some t) × (n + 232 ≤ t.count) × (t.count ≤ 255)
Waits-bound x k k' n g w =
    let i : In x k.ready_list_low = Waits-In x w in
    let q = queued x k g i in
    let (g', i', (u, at, c)) = Waits-Later x q.0 g q.1 w in
    let r = queued x k' g' i' in
    let same : u ≡ r.0 = let a = sym at ∙ r.1 in cc in
    let counts : u.count ≡ r.0.count = ap (λ (v : Thread). v.count) same in
    let low : 232 ≤ r.0.count = ground (arith, r.3, r.4) in
    (q.0, q.1, omega (arith, c, counts, low), ground (arith, q.3, q.4))
