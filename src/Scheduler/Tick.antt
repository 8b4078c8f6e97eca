-- ===== src/Scheduler/Tick.antt =====
-- `thread_tick`: a tick of the timer ages the low queue while a thread of the high one runs, and
-- preempts the running thread when its slice is over.
use linux_programming.Prelude.{
  ℕ, ◌+◌, ◌%◌, ◌^◌, Bool, true, false, not, ◌&&◌, ◌||◌, some, List, ◌++◌, ◌≡◌, ◌≢◌, inl, inr, arith,
  refl, ◌∙◌, ltb, leb, if◌then◌else◌, Bool-cases, Returns, Returns-bind, Returns-map, Absent, All,
  is_empty, [], ◌∷◌, ap, subst₂,
}
use linux_programming.Prelude.Store.{update_self, update_ne}
use linux_programming.Prelude.Int8.{negative, incr, minus_one}
use linux_programming.Scheduler.{
  Thread, Kernel, running, store, time_slice, time_slice_low, count_tick, preempt, age, thread_tick,
}
use linux_programming.Scheduler.Invariant.{
  InOrder, Queued, IsCount, IsValid, update-IsQueues, not_ready-Absent,
}
use linux_programming.Scheduler.Calls.{thread_current_lem, self-Absent}
use linux_programming.Scheduler.Aging.{Ages, age-Ages, aged, expired, waiting}

-- The running thread after a tick, if its slice has then lasted `n` ticks: the second slice of the
-- high queue that it uses up moves it to the low one.
abbrev pub ticked : Thread → ℕ → Thread
ticked t n =
    if negative t.count || ltb n time_slice
    then t
    else record t { count = if leb 1 t.count then minus_one else incr t.count }

-- Whether the tick ends the slice: after 4 ticks in the high queue, after 8 in the low one, where a
-- thread of the high queue ends it at once.
abbrev pub slice_over : Thread → ℕ → Bool → Bool
slice_over t n high_empty =
    if negative t.count then not (high_empty && ltb n time_slice_low) else not (ltb n time_slice)

pub ticked-IsCount : (t : Thread) (n : ℕ) → IsCount t.count → IsCount (ticked t n).count
ticked-IsCount t n c = ground arith

-- What the end of `thread_tick` leads to.
pub record Preempts (k : Kernel) (t : Thread) (k' : Kernel) : Type 0 where
  pub valid : IsValid k'
  pub current : k'.current ≡ k.current
  pub high : k'.ready_list ≡ k.ready_list
  pub low : k'.ready_list_low ≡ k.ready_list_low
  pub caller : k'.mem k.current ≡ some (ticked t k.thread_ticks)
  pub others : (q : ℕ) → q ≢ k.current → k'.mem q ≡ k.mem q
  pub ticks : k'.thread_ticks ≡ k.thread_ticks
  pub yields :
      k'.yield_on_return
      ≡ (k.yield_on_return || slice_over t k.thread_ticks (is_empty k.ready_list))

module _ (k : Kernel) (q : InOrder k) (t : Thread) (at : k.mem k.current ≡ some t)
    (r : t.status ≡ running) (c : IsCount t.count) where
  unchanged :
      (yield : Bool)
      → ticked t k.thread_ticks ≡ t
      → yield ≡ (k.yield_on_return || slice_over t k.thread_ticks (is_empty k.ready_list))
      → Preempts k t (record k { yield_on_return = yield })
  unchanged yield e y = record {
    valid = record { queues = q; current = (t, at, r, c) };
    current = refl;
    high = refl;
    low = refl;
    caller = rw e at;
    others = λ x ne. refl;
    ticks = refl;
    yields = y;
  }

  rewritten :
      (t' : Thread)
      → ticked t k.thread_ticks ≡ t'
      → t'.status ≡ running
      → true ≡ (k.yield_on_return || slice_over t k.thread_ticks (is_empty k.ready_list))
      → Preempts k t (store k.current t' (record k { yield_on_return = true }))
  rewritten t' e r' y =
      let (ah, al) =
        not_ready-Absent k.mem k.ready_list k.ready_list_low k.idle_thread q k.current t at
          (λ s. ground arith) in
      let c' : IsCount t'.count = rw (← e) (ticked-IsCount t k.thread_ticks c) in
      record {
        valid = record {
          queues =
              update-IsQueues k.mem k.ready_list k.ready_list_low k.idle_thread q k.current t' ah al
                (λ d. ground arith) c';
          current = (t', update_self k.mem k.current (some t'), r', c');
        };
        current = refl;
        high = refl;
        low = refl;
        caller = rw e (update_self k.mem k.current (some t'));
        others = update_ne k.mem k.current (some t');
        ticks = refl;
        yields = y;
      }

  pub preempt-Preempts : Returns (preempt k) (Preempts k t)
  unfolding preempt
  preempt-Preempts = rw at (elim (Bool-cases (negative t.count)) [
    | inl n ↦ rw n (elim (Bool-cases (is_empty k.ready_list && ltb k.thread_ticks time_slice_low)) [
      | inl e ↦ rw e (unchanged k.yield_on_return (rw n) (ground arith))
      | inr e ↦ rw e (unchanged true (rw n) (ground arith))
    ])
    | inr n ↦ rw n (elim (Bool-cases (ltb k.thread_ticks time_slice)) [
      | inl e ↦ rw e (unchanged k.yield_on_return (rw (n, e)) (ground arith))
      | inr e ↦ rw e (rewritten _ (rw (n, e)) r (ground arith))
    ])
  ])

-- The thread on the processor, running with a valid count.
abbrev pub ticks_after : Kernel → ℕ
ticks_after k = (k.thread_ticks + 1) % 2 ^ 32

-- The queues after the loop over the low one, which runs only while a thread of the high queue does.
abbrev pub high_after : Kernel → Thread → List ℕ
high_after k t =
    if negative t.count then k.ready_list else k.ready_list ++ expired k.mem k.ready_list_low

abbrev pub low_after : Kernel → Thread → List ℕ
low_after k t = if negative t.count then k.ready_list_low else waiting k.mem k.ready_list_low

-- What a tick leads to from `k`, in which `t` runs.
pub record Ticks (k : Kernel) (t : Thread) (k' : Kernel) : Type 0 where
  pub valid : IsValid k'
  pub current : k'.current ≡ k.current
  pub high : k'.ready_list ≡ high_after k t
  pub low : k'.ready_list_low ≡ low_after k t
  pub caller : k'.mem k.current ≡ some (ticked t (ticks_after k))
  pub waits :
      All
        (λ p.
          (s : Thread) × (k.mem p ≡ some s)
          × (k'.mem p ≡ some (if negative t.count then s else aged s)))
        k.ready_list_low
  pub others : (q : ℕ) → q ≢ k.current → Absent q k.ready_list_low → k'.mem q ≡ k.mem q
  pub ticks : k'.thread_ticks ≡ ticks_after k
  pub yields :
      k'.yield_on_return
      ≡ (k.yield_on_return || slice_over t (ticks_after k) (is_empty (high_after k t)))

module _ (k : Kernel) (v : IsValid k) where
  abbrev t : Thread
  t = v.current.0

  abbrev at_preempt : Kernel
  at_preempt = record (count_tick k) { thread_ticks = ticks_after k }

  waits-low :
      (k' : Kernel) (ps : List ℕ)
      → negative t.count ≡ true
      → All (Queued k.mem true) ps
      → Absent k.current ps
      → ((q : ℕ) → q ≢ k.current → k'.mem q ≡ k.mem q)
      → All
          (λ p.
            (s : Thread) × (k.mem p ≡ some s)
            × (k'.mem p ≡ some (if negative t.count then s else aged s)))
          ps
  waits-low k' [] n h a same = tt
  waits-low k' (p ∷ ps) n h a same =
      ((h.0.0, h.0.1, rw n (same p a.0 ∙ h.0.1)), waits-low k' ps n h.1 a.1 same)

  waits-high :
      (k1 k' : Kernel) (ps : List ℕ)
      → negative t.count ≡ false
      → All (λ p. (s : Thread) × (k.mem p ≡ some s) × (k1.mem p ≡ some (aged s))) ps
      → Absent k.current ps
      → ((q : ℕ) → q ≢ k.current → k'.mem q ≡ k1.mem q)
      → All
          (λ p.
            (s : Thread) × (k.mem p ≡ some s)
            × (k'.mem p ≡ some (if negative t.count then s else aged s)))
          ps
  waits-high k1 k' [] n h a same = tt
  waits-high k1 k' (p ∷ ps) n h a same =
      ((h.0.0, h.0.1, rw n (same p a.0 ∙ h.0.2)), waits-high k1 k' ps n h.1 a.1 same)

  tick_low : negative t.count ≡ true → Returns (preempt at_preempt) (Ticks k t)
  tick_low n =
      Returns-map (Preempts at_preempt t) (Ticks k t) (preempt at_preempt)
        (preempt-Preempts at_preempt v.queues t v.current.1 v.current.2 v.current.3)
        (λ k' e. record {
          valid = e.valid;
          current = e.current;
          high = rw n e.high;
          low = rw n e.low;
          caller = e.caller;
          waits = waits-low k' k.ready_list_low n v.queues.low (self-Absent k v).1 e.others;
          others = λ q ne out. e.others q ne;
          ticks = e.ticks;
          yields = rw n (rw n at e.yields);
        })

  -- The kernel after the loop, with the slice a tick longer.
  abbrev at_preempt_from : Kernel → Kernel
  at_preempt_from a = record a { thread_ticks = (a.thread_ticks + 1) % 2 ^ 32 }

  tick_high :
      negative t.count ≡ false
      → (a : Kernel) → Ages (count_tick k) [] k.ready_list_low a
      → Returns (preempt (at_preempt_from a)) (Ticks k t)
  tick_high n a g =
      let k1 = at_preempt_from a in
      let here : a.mem k.current ≡ some t = g.outside k.current (self-Absent k v).1 ∙ v.current.1 in
      let same : k1.thread_ticks ≡ ticks_after k = ap (λ (x : ℕ). (x + 1) % 2 ^ 32) g.ticks in
      Returns-map (Preempts k1 t) (Ticks k t) (preempt k1)
        (preempt-Preempts k1 g.queues t (rw g.current here) v.current.2 v.current.3)
        (λ k' e. record {
          valid = e.valid;
          current = e.current ∙ g.current;
          high = rw n (e.high ∙ g.high);
          low = rw n (e.low ∙ g.low);
          caller = subst₂ (λ p x. k'.mem p ≡ some (ticked t x)) g.current same e.caller;
          waits =
              waits-high a k' k.ready_list_low n g.inside (self-Absent k v).1
                (λ q ne. e.others q (λ s. ne (s ∙ g.current)));
          others = λ q ne out. e.others q (λ s. ne (s ∙ g.current)) ∙ g.outside q out;
          ticks = e.ticks ∙ same;
          yields = e.yields ∙ (rw (g.yields, g.ticks, g.high, n));
        })

  -- A tick in a valid state leads to the state that `Ticks` describes.
  pub thread_tick-Ticks : Returns (thread_tick k) (Ticks k t)
  unfolding thread_tick
  thread_tick-Ticks = rw (thread_current_lem k v) (elim (Bool-cases (negative t.count)) [
    | inl n ↦ rw n (tick_low n)
    | inr n ↦ rw n (
        Returns-bind (Ages (count_tick k) [] k.ready_list_low) (Ticks k t)
          (age k.ready_list_low (count_tick k)) (λ a. preempt (at_preempt_from a))
          (age-Ages k.ready_list_low [] (count_tick k) v.queues refl) (λ a g. tick_high n a g))
  ])
