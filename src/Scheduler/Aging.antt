-- ===== src/Scheduler/Aging.antt =====
-- The loop of `thread_tick` over the low queue: each thread waits a tick more, and those whose 24th
-- tick of waiting it is go to the high queue, in their order.
use linux_programming.Prelude.{
  ℕ, Bool, true, false, ◌&&◌, Option, none, some, List, [], ◌∷◌, ◌++◌, ◌≡◌, ◌≢◌, inl, inr, arith,
  refl, ◌∙◌, sym, ap, subst, ◌==◌, ltb, if◌then◌else◌, Bool-cases, Returns, Returns-map, Absent,
  Distinct, All, remove, All-remove, Distinct-remove, Absent-remove, Distinct-middle, remove-middle,
  All-at,
}
use mathlib.Core.List.{append_assoc, append-nil}
use linux_programming.Prelude.Store.{update, update_self, update_ne}
use linux_programming.Prelude.Int8.{negative, decr}
use linux_programming.Scheduler.{Thread, Kernel, minus_waiting_time, store, age_thread, age}
use linux_programming.Scheduler.Invariant.{
  Memory, InOrder, IsCount, Queued, Queued-Absent, Queued-update, push_high-IsQueues,
}

-- A tick ends the wait of a thread that has waited 23 ticks since it ran: its count is -24.
abbrev pub is_last_tick : Thread → Bool
is_last_tick t = t.count == 232

-- A thread of the low queue, a tick later.
abbrev pub aged : Thread → Thread
aged t = record t { count = if is_last_tick t then 0 else decr t.count }

abbrev pub ends_wait : Option Thread → Bool
ends_wait none = false
ends_wait (some t) = is_last_tick t

abbrev pub expires : Memory → ℕ → Bool
expires m p = ends_wait (m p)

-- The threads whose wait ends, and those that wait on.
abbrev pub expired : Memory → List ℕ → List ℕ
expired m [] = []
expired m (p ∷ ps) = if expires m p then p ∷ expired m ps else expired m ps

abbrev pub waiting : Memory → List ℕ → List ℕ
waiting m [] = []
waiting m (p ∷ ps) = if expires m p then waiting m ps else p ∷ waiting m ps

-- The loop has gone through `ps`, the end of the low queue; before it, `kept` stays.
pub record Ages (k : Kernel) (kept ps : List ℕ) (k' : Kernel) : Type 0 where
  pub queues : InOrder k'
  pub high : k'.ready_list ≡ k.ready_list ++ expired k.mem ps
  pub low : k'.ready_list_low ≡ kept ++ waiting k.mem ps
  pub inside : All (λ p. (t : Thread) × (k.mem p ≡ some t) × (k'.mem p ≡ some (aged t))) ps
  pub outside : (q : ℕ) → Absent q ps → k'.mem q ≡ k.mem q
  pub current : k'.current ≡ k.current
  pub idle : k'.idle_thread ≡ k.idle_thread
  pub ticks : k'.thread_ticks ≡ k.thread_ticks
  pub all_list : k'.all_list ≡ k.all_list
  pub yields : k'.yield_on_return ≡ k.yield_on_return

lists-update :
    (m : Memory) (p : ℕ) (v : Option Thread) (ps : List ℕ)
    → Absent p ps
    → (expired (update m p v) ps ≡ expired m ps) × (waiting (update m p v) ps ≡ waiting m ps)
lists-update m p v [] a = (refl, refl)
lists-update m p v (q ∷ ps) a =
    let (e, w) = lists-update m p v ps a.1 in
    let same : expires (update m p v) q ≡ expires m q = ap ends_wait (update_ne m p v q a.0) in
    (rw (same, e), rw (same, w))

-- The count of a queued thread changes, and the thread stays in its queue.
Queued-touch :
    (m : Memory) (low : Bool) (p : ℕ) (v : Option Thread) (ps : List ℕ)
    → Queued (update m p v) low p
    → All (Queued m low) ps
    → All (Queued (update m p v) low) ps
Queued-touch m low p v [] new h = tt
Queued-touch m low p v (q ∷ ps) new h = (
  elim (Bool-cases (p == q)) [
    | inl e ↦ let same : p ≡ q = ground arith in subst (Queued (update m p v) low) same new
    | inr e ↦ (h.0.0, (ground arith), h.0.2, h.0.3, h.0.4)
  ],
  Queued-touch m low p v ps new h.1,
)

-- One round of the loop, at the thread `p`.
module _ (k : Kernel) (q : InOrder k) (kept ps : List ℕ) (p : ℕ)
    (low : k.ready_list_low ≡ kept ++ p ∷ ps) where
  queued : Queued k.mem true p
  queued = All-at (Queued k.mem true) p kept ps (subst (All (Queued k.mem true)) low q.low)

  abbrev t : Thread
  t = queued.0

  t_low : IsCount t.count × (negative t.count ≡ true)
  t_low = (queued.4, queued.3)

  apart : Absent p k.ready_list × Absent p kept × Absent p ps
  apart =
      let (before, after) = Distinct-middle p kept ps (subst Distinct low q.distinct_low) in
      (Queued-Absent k.mem false p t k.ready_list queued.1 (inr queued.3) q.high, before, after)

  abbrev promoted : Kernel
  promoted =
      store p (record t { count = 0 })
        (record k {
          ready_list_low = remove p k.ready_list_low;
          ready_list = k.ready_list ++ p ∷ [];
        })

  abbrev delayed : Kernel
  delayed = store p (record t { count = decr t.count }) k

  age_thread_lem : age_thread p k ≡ some (if is_last_tick t then promoted else delayed)
  unfolding age_thread
  age_thread_lem =
      let (c, n) = t_low in
      let same : (negative (decr t.count) && ltb (decr t.count) minus_waiting_time)
          ≡ is_last_tick t =
        ground arith in
      rw (queued.1, same) (ground arith)

  promoted-InOrder : InOrder promoted
  promoted-InOrder =
      push_high-IsQueues k.mem k.ready_list (remove p k.ready_list_low) k.idle_thread
        (record {
          high = q.high;
          low = All-remove (Queued k.mem true) p k.ready_list_low q.low;
          distinct_high = q.distinct_high;
          distinct_low = Distinct-remove p k.ready_list_low q.distinct_low;
          idle = q.idle;
        })
        p (record t { count = 0 }) apart.0 (Absent-remove p k.ready_list_low q.distinct_low)
        queued.2 refl (inl (omega arith))

  delayed-InOrder : is_last_tick t ≡ false → InOrder delayed
  delayed-InOrder e =
      let t' : Thread = record t { count = decr t.count } in
      let (c, n) = t_low in
      let c' : IsCount t'.count = inr (ground arith, ground arith) in
      record {
        high = Queued-update k.mem false p (some t') k.ready_list apart.0 q.high;
        low =
            Queued-touch k.mem true p (some t') k.ready_list_low
              (t', update_self k.mem p (some t'), queued.2, (ground arith), c') q.low;
        distinct_high = q.distinct_high;
        distinct_low = q.distinct_low;
        idle = elim (Bool-cases (p == k.idle_thread)) [
          | inl i ↦ (t', (ground arith), (λ d. let r = queued.2 in ground arith), c')
          | inr i ↦ (q.idle.0, (ground arith), q.idle.2, q.idle.3)
        ];
      }

  promoted-low : promoted.ready_list_low ≡ kept ++ ps
  promoted-low = rw low (remove-middle p kept ps apart.1)

  delayed-low : delayed.ready_list_low ≡ (kept ++ p ∷ []) ++ ps
  delayed-low = low ∙ sym (append_assoc kept (p ∷ []) ps)

  -- The rest of the loop, from the kernel that this round leaves.
  joined :
      (k1 k' : Kernel) (t' : Thread) (front : List ℕ)
      → k1.mem ≡ update k.mem p (some t')
      → t' ≡ aged t
      → k1.current ≡ k.current
      → k1.idle_thread ≡ k.idle_thread
      → k1.thread_ticks ≡ k.thread_ticks
      → k1.all_list ≡ k.all_list
      → k1.yield_on_return ≡ k.yield_on_return
      → k1.ready_list ++ expired k.mem ps ≡ k.ready_list ++ expired k.mem (p ∷ ps)
      → front ++ waiting k.mem ps ≡ kept ++ waiting k.mem (p ∷ ps)
      → Ages k1 front ps k'
      → Ages k kept (p ∷ ps) k'
  joined k1 k' t' front em et ec ei ek ea ey eh el g =
      let (se, sw) = lists-update k.mem p (some t') ps apart.2 in
      let old : (x : ℕ) → x ≢ p → k1.mem x ≡ k.mem x =
        (λ x ne. rw em (update_ne k.mem p (some t') x ne)) in
      record {
        queues = g.queues;
        high = g.high ∙ (rw (em, se) eh);
        low = g.low ∙ (rw (em, sw) el);
        inside = (
          (t, queued.1, g.outside p apart.2 ∙ (rw (em, et) (update_self k.mem p (some (aged t))))),
          inside-old ps apart.2 old g.inside,
        );
        outside = λ x a. g.outside x a.1 ∙ old x (λ e. a.0 (sym e));
        current = g.current ∙ ec;
        idle = g.idle ∙ ei;
        ticks = g.ticks ∙ ek;
        all_list = g.all_list ∙ ea;
        yields = g.yields ∙ ey;
      }
    where
      inside-old :
          (xs : List ℕ)
          → Absent p xs
          → ((x : ℕ) → x ≢ p → k1.mem x ≡ k.mem x)
          → All (λ x. (t : Thread) × (k1.mem x ≡ some t) × (k'.mem x ≡ some (aged t))) xs
          → All (λ x. (t : Thread) × (k.mem x ≡ some t) × (k'.mem x ≡ some (aged t))) xs
      inside-old [] a old h = tt
      inside-old (x ∷ xs) a old h =
          ((h.0.0, sym (old x a.0) ∙ h.0.1, h.0.2), inside-old xs a.1 old h.1)

-- From queues in order the loop returns, with no ASSERT or access failing.
pub age-Ages :
    (ps kept : List ℕ) (k : Kernel)
    → InOrder k
    → k.ready_list_low ≡ kept ++ ps
    → Returns (age ps k) (Ages k kept ps)
unfolding age
age-Ages [] kept k q low = record {
  queues = q;
  high = sym (append-nil k.ready_list);
  low = low;
  inside = tt;
  outside = λ x a. refl;
  current = refl;
  idle = refl;
  ticks = refl;
  all_list = refl;
  yields = refl;
}
age-Ages (p ∷ ps) kept k q low =
    let t = (queued k q kept ps p low).0 in
    let at = (queued k q kept ps p low).1 in
    rw (age_thread_lem k q kept ps p low) (elim (Bool-cases (is_last_tick t)) [
      | inl e ↦
          let k1 = promoted k q kept ps p low in
          rw e (
            Returns-map (Ages k1 kept ps) (Ages k kept (p ∷ ps)) (age ps k1)
              (age-Ages ps kept k1 (promoted-InOrder k q kept ps p low)
                (promoted-low k q kept ps p low))
              (λ k'.
                joined k q kept ps p low k1 k' (record t { count = 0 }) kept refl (rw e) refl refl
                  refl refl refl
                  (rw (at, e) (append_assoc k.ready_list (p ∷ []) (expired k.mem ps)))
                  (rw (at, e))))
      | inr e ↦
          let k1 = delayed k q kept ps p low in
          rw e (
            Returns-map (Ages k1 (kept ++ p ∷ []) ps) (Ages k kept (p ∷ ps)) (age ps k1)
              (age-Ages ps (kept ++ p ∷ []) k1 (delayed-InOrder k q kept ps p low e)
                (delayed-low k q kept ps p low))
              (λ k'.
                joined k q kept ps p low k1 k' (record t { count = decr t.count }) (kept ++ p ∷ [])
                  refl (rw e) refl refl refl refl refl (rw (at, e))
                  (rw (at, e) (append_assoc kept (p ∷ []) (waiting k.mem ps)))))
    ])
