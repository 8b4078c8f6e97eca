-- ===== src/Scheduler/Steps.antt =====
-- The calls of thread.c in any order, with what interrupts do between them. A state from which the calls
-- go on is one with a thread on the processor, the queues in order, and counts in range.
use linux_programming.Prelude.{
  ℕ, Bool, true, false, Option, none, some, List, [], ◌∷◌, ◌≡◌, ◌≢◌, ◌⊎◌, inl, inr, sym, ◌∙◌, ap,
  subst, arith, ◌==◌, ==_iff, if◌then◌else◌, Bool-cases, All, Absent,
}
use linux_programming.Prelude.Int8.{negative}
use linux_programming.Scheduler.{
  Thread, Kernel, ready, blocked, null, thread_tick, thread_yield, thread_block, thread_exit,
  thread_unblock, thread_create,
}
use linux_programming.Scheduler.Invariant.{IsCount, IsValid}
use linux_programming.Scheduler.Calls.{
  Leaves, thread_yield-Leaves, thread_block-Leaves, thread_exit-Leaves,
}
use linux_programming.Scheduler.Wake.{created, thread_unblock-Enters, thread_create-Creates}
use linux_programming.Scheduler.Tick.{Ticks, ticked, ticks_after, ticked-IsCount, thread_tick-Ticks}
use linux_programming.Scheduler.Contracts.{
  returned, yields_outside, blocks_outside, exits_outside, unblocks_blocked, creates_given,
}
use linux_programming.Scheduler.Aging.{aged}

-- A call that returns, or a change of the flags of the processor by an interrupt. The threads that exit are
-- neither the idle nor the initial one; a page for a new thread is one at which no thread stands.
pub data Step : Kernel → Kernel → Type 0 where
  interrupts :
      (k : Kernel) (off handler yield : Bool)
      → Step k (record k { interrupts = off; in_handler = handler; yield_on_return = yield })
  ticks : (k k' : Kernel) → thread_tick k ≡ some k' → Step k k'
  yields : (k k' : Kernel) → thread_yield k ≡ some k' → Step k k'
  blocks : (k k' : Kernel) → thread_block k ≡ some k' → Step k k'
  exits :
      (k k' : Kernel)
      → k.current ≢ k.idle_thread
      → k.current ≢ null
      → k.current ≢ k.initial_thread
      → thread_exit k ≡ some k'
      → Step k k'
  unblocks : (k k' : Kernel) (p : ℕ) → thread_unblock p k ≡ some k' → Step k k'
  creates :
      (k k' : Kernel) (page function : ℕ) (name : List ℕ) (priority : ℕ) (tid : Option ℕ)
      → k.mem page ≡ none
      → thread_create page function name priority k ≡ some (tid, k')
      → Step k k'

-- The kernel is valid, and each thread has a count of one of the queues.
pub record IsGood (k : Kernel) : Type 0 where
  pub valid : IsValid k
  pub counts : (p : ℕ) (t : Thread) → k.mem p ≡ some t → IsCount t.count

module _ (k : Kernel) (v : IsValid k) where
  Leaves-IsGood :
      (k' : Kernel) (o : Option Thread) (al : List ℕ) (p : ℕ) (hs ls : List ℕ)
      → ((q : ℕ) (t : Thread) → k.mem q ≡ some t → IsCount t.count)
      → ((t : Thread) → o ≡ some t → IsCount t.count)
      → Leaves k o al p hs ls k'
      → IsGood k'
  Leaves-IsGood k' o al p hs ls counts left l = record {
    valid = l.valid;
    counts = λ q t e. elim (Bool-cases (q == p)) [
      | inl f ↦
          let c = l.valid.current in
          let here : k'.mem k'.current ≡ some t =
            ap k'.mem (l.current ∙ sym ((==_iff q p).0 f)) ∙ e in
          let same : c.0 ≡ t = let a = sym c.1 ∙ here in cc in
          subst (λ (u : Thread). IsCount u.count) same c.3
      | inr f ↦ elim (Bool-cases (q == k.current)) [
        | inl s ↦
            let same : q ≡ k.current = (==_iff q k.current).0 s in
            left t (sym (l.caller (λ z. ground (arith, f, z, same))) ∙ ap k'.mem (sym same) ∙ e)
        | inr s ↦ counts q t (sym (l.others q (ground (arith, f)) (ground (arith, s))) ∙ e)
      ]
    ];
  }

aged-IsCount : (s : Thread) (b : Bool) → IsCount s.count → IsCount (if b then s else aged s).count
aged-IsCount s true c = c
aged-IsCount s false c = ground arith

-- A page is not in the list, or what holds of all in it holds of the page.
pub at_or_Absent : (q : ℕ) (l : List ℕ) → Absent q l ⊎ ((P : ℕ → Type 0) → All P l → P q)
at_or_Absent q [] = inl tt
at_or_Absent q (p ∷ l) = elim (Bool-cases (p == q)) [
  | inl e ↦ inr (λ P h. subst P ((==_iff p q).0 e) h.0)
  | inr e ↦ elim (at_or_Absent q l) [
    | inl a ↦ inl (ground (arith, e), a)
    | inr f ↦ inr (λ P h. f P h.1)
  ]
]

Ticks-IsGood : (k k' : Kernel) (g : IsGood k) → Ticks k g.valid.current.0 k' → IsGood k'
Ticks-IsGood k k' g h = record {
  valid = h.valid;
  counts = λ q t e.
      let cur = g.valid.current in
      elim (Bool-cases (q == k.current)) [
        | inl s ↦
            let here : k'.mem k.current ≡ some t = ap k'.mem (sym ((==_iff q k.current).0 s)) ∙ e in
            let same : ticked cur.0 (ticks_after k) ≡ t = let a = sym h.caller ∙ here in cc in
            subst (λ (u : Thread). IsCount u.count) same
              (ticked-IsCount cur.0 (ticks_after k) cur.3)
        | inr s ↦ elim (at_or_Absent q k.ready_list_low) [
          | inl out ↦ g.counts q t (sym (h.others q (ground (arith, s)) out) ∙ e)
          | inr at ↦
              let w = at _ h.waits in
              let same : (if negative cur.0.count then w.0 else aged w.0) ≡ t =
                let a = sym w.2 ∙ e in cc in
              subst (λ (u : Thread). IsCount u.count) same
                (aged-IsCount w.0 (negative cur.0.count) (g.counts q w.0 w.1))
        ]
      ];
}

entered-IsGood :
    (k k' : Kernel) (p : ℕ) (t : Thread)
    → ((q : ℕ) (u : Thread) → k.mem q ≡ some u → IsCount u.count)
    → IsCount t.count
    → IsValid k'
    → k'.mem p ≡ some t
    → ((q : ℕ) → q ≢ p → k'.mem q ≡ k.mem q)
    → IsGood k'
entered-IsGood k k' p t counts c v here others = record {
  valid = v;
  counts = λ q u e. elim (Bool-cases (q == p)) [
    | inl s ↦
        let at : k'.mem p ≡ some u = ap k'.mem (sym ((==_iff q p).0 s)) ∙ e in
        let same : t ≡ u = let a = sym here ∙ at in cc in
        subst (λ (w : Thread). IsCount w.count) same c
    | inr s ↦ counts q u (sym (others q (ground (arith, s))) ∙ e)
  ];
}

-- Every call that returns leads from a good kernel to a good one.
pub Step-IsGood : {k k' : Kernel} → Step k k' → IsGood k → IsGood k'
Step-IsGood (interrupts k off handler yield) g = record {
  valid = record { queues = g.valid.queues; current = g.valid.current };
  counts = g.counts;
}
Step-IsGood (ticks k k' e) g =
    Ticks-IsGood k k' g
      (returned (Ticks k g.valid.current.0) (thread_tick k) k' (thread_tick-Ticks k g.valid) e)
Step-IsGood (yields k k' e) g =
    let out = yields_outside k g.valid k' e in
    Leaves-IsGood k g.valid k' _ _ _ _ _ g.counts
      (λ t f.
        subst (λ (u : Thread). IsCount u.count)
          (let a : record g.valid.current.0 { status = ready } ≡ t = cc in a) g.valid.current.3)
      (returned _ (thread_yield k) k' (thread_yield-Leaves k g.valid out) e)
Step-IsGood (blocks k k' e) g =
    let (out, off) = blocks_outside k g.valid k' e in
    Leaves-IsGood k g.valid k' _ _ _ _ _ g.counts
      (λ t f.
        subst (λ (u : Thread). IsCount u.count)
          (let a : record g.valid.current.0 { status = blocked } ≡ t = cc in a) g.valid.current.3)
      (returned _ (thread_block k) k' (thread_block-Leaves k g.valid out off) e)
Step-IsGood (exits k k' a b c e) g =
    let out = exits_outside k g.valid k' e in
    Leaves-IsGood k g.valid k' _ _ _ _ _ g.counts (λ t f. absurd (cc))
      (returned _ (thread_exit k) k' (thread_exit-Leaves k g.valid out a b c) e)
Step-IsGood (unblocks k k' p e) g =
    let (t, at, b) = unblocks_blocked k g.valid k' p e in
    let h =
      returned _ (thread_unblock p k) k'
        (thread_unblock-Enters k g.valid p t at b (g.counts p t at)) e in
    entered-IsGood k k' p (record t { status = ready }) g.counts (g.counts p t at) h.valid h.entered
      h.others
Step-IsGood (creates k k' page function name priority tid fresh e) g =
    let (code, given) = creates_given k g.valid (tid, k') page function name priority e in
    elim given [
      | inl n ↦
          let same : k' ≡ k = ap (λ (r : Option ℕ × Kernel). r.1) n.1 in subst IsGood (sym same) g
      | inr r ↦
          let h =
            returned _ (thread_create page function name priority k) (tid, k')
              (thread_create-Creates k g.valid page function name priority fresh r.0 r.1 code) e in
          entered-IsGood k k' page (created k.next_tid name priority) g.counts (inl (omega arith))
            h.valid h.here h.others
    ]
