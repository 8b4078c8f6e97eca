-- ===== src/Scheduler/Switch.antt =====
-- `schedule` and `thread_schedule_tail`: from a state that some thread is leaving they reach one in
-- which the thread at the head of the queues runs, with no ASSERT failing on the way.
use linux_programming.Prelude.{
  ℕ, true, false, some, List, ◌≡◌, ◌≢◌, inl, inr, arith, refl, Absent, ◌==◌, if◌then◌else◌,
  Bool-cases, subst, not, ensure, sym, ==_iff, Returns, Returns-map, ◌⊎◌, Option, none, ◌∙◌,
}
use linux_programming.Prelude.Store.{update, update_self}
use linux_programming.Prelude.Int8.{negative, minus_one}
use linux_programming.Scheduler.{
  Thread, Kernel, running, dying, schedule, must_free, thread_schedule_tail, store, is_running,
  null, switch_to, reset_wait,
}
use linux_programming.Scheduler.Invariant.{
  Memory, InOrder, IsCount, IsValid, update-IsQueues, free-IsQueues,
}
use linux_programming.Scheduler.Next.{IsNext, next_of, next_of-IsNext, next_thread_to_run_lem}

-- The memory once `thread_schedule_tail (prev)` has freed what it frees.
abbrev pub freed : ℕ → Kernel → Memory
freed prev k = if must_free prev k then update k.mem prev none else k.mem

-- The state that a switch from `k` leads to: valid, on the stack of `p`, with the given queues and
-- a new time slice. But for `p` and the page that is freed the threads are as they were.
pub record Runs (prev : ℕ) (k : Kernel) (p : ℕ) (hs ls : List ℕ) (k' : Kernel) : Type 0 where
  pub valid : IsValid k'
  pub current : k'.current ≡ p
  pub high : k'.ready_list ≡ hs
  pub low : k'.ready_list_low ≡ ls
  pub slice : k'.thread_ticks ≡ 0
  pub others : (q : ℕ) → q ≢ p → k'.mem q ≡ freed prev k q
  pub all_list : k'.all_list ≡ k.all_list
  pub idle : k'.idle_thread ≡ k.idle_thread

-- A write to another thread's structure does not change what is freed.
freed-update :
    (prev p : ℕ) (k : Kernel) (v : Option Thread)
    → (prev ≡ null) ⊎ (prev ≢ p)
    → (q : ℕ) → q ≢ p
    → freed prev (record k { mem = update k.mem p v }) q ≡ freed prev k q
freed-update prev p k v why q other = ground arith

-- The same states, told from another start.
restart :
    (prev prev' : ℕ) (k k' : Kernel) (p : ℕ) (hs ls : List ℕ) (m : Option Kernel)
    → ((q : ℕ) → q ≢ p → freed prev k q ≡ freed prev' k' q)
    → k.all_list ≡ k'.all_list
    → k.idle_thread ≡ k'.idle_thread
    → Returns m (Runs prev k p hs ls)
    → Returns m (Runs prev' k' p hs ls)
restart prev prev' k k' p hs ls m same all idle h =
    Returns-map (Runs prev k p hs ls) (Runs prev' k' p hs ls) m h (λ r c. record {
      valid = c.valid;
      current = c.current;
      high = c.high;
      low = c.low;
      slice = c.slice;
      others = λ q ne. c.others q ne ∙ same q ne;
      all_list = c.all_list ∙ all;
      idle = c.idle ∙ idle;
    })

must_free-dying :
    (p : ℕ) (k : Kernel)
    → must_free p k ≡ true
    → (t : Thread) × (k.mem p ≡ some t) × (t.status ≡ dying)
must_free-dying p k h = ground arith

-- The thread on the processor is in neither queue, and is about to run.
pub record IsChosen (k : Kernel) (t : Thread) : Type 0 where
  pub here : k.mem k.current ≡ some t
  pub count : IsCount t.count
  pub queues : InOrder k
  pub not_high : Absent k.current k.ready_list
  pub not_low : Absent k.current k.ready_list_low

module _ (prev : ℕ) (k : Kernel) (t : Thread) (quiet : k.interrupts ≡ false)
    (c : IsChosen k t) where
  abbrev marked : Kernel
  marked = record (store k.current (record t { status = running }) k) { thread_ticks = 0 }

  marked-InOrder : InOrder marked
  marked-InOrder =
      update-IsQueues k.mem k.ready_list k.ready_list_low k.idle_thread c.queues k.current
        (record t { status = running }) c.not_high c.not_low (cc) c.count

  tail-Runs :
      (prev ≡ null) ⊎ (prev ≢ k.current)
      → Returns (thread_schedule_tail prev k) (Runs prev k k.current k.ready_list k.ready_list_low)
  unfolding thread_schedule_tail
  tail-Runs why =
      let off : ensure (not k.interrupts) ≡ some tt = rw quiet in
      let same = freed-update prev k.current k (some (record t { status = running })) why in
      rw (off, c.here)
        (elim (Bool-cases (must_free prev marked)) [
          | inl e ↦
              let (d, at, dead) = must_free-dying prev marked e in
              let other : (prev == k.current) ≡ false = ground arith in
              rw (e, other)
                (record {
                  valid = record {
                    queues =
                        free-IsQueues marked.mem k.ready_list k.ready_list_low k.idle_thread
                          marked-InOrder prev d at dead;
                    current = (record t { status = running }, ground arith, refl, c.count);
                  };
                  current = refl;
                  high = refl;
                  low = refl;
                  slice = refl;
                  others = λ q ne. rw (← same q ne, e);
                  all_list = refl;
                  idle = refl;
                })
          | inr e ↦ rw e (record {
            valid = record {
              queues = marked-InOrder;
              current =
                  (record t { status = running }, update_self k.mem k.current _, refl, c.count);
            };
            current = refl;
            high = refl;
            low = refl;
            slice = refl;
            others = λ q ne. rw (← same q ne, e);
            all_list = refl;
            idle = refl;
          })
        ])

-- The count of a thread that starts to run is `-1` if it is negative.
abbrev pub reset_count : Thread → Thread
reset_count t = if negative t.count then record t { count = minus_one } else t

-- The state in which `schedule` may be called: the thread on the processor is no longer running.
pub record IsLeaving (k : Kernel) : Type 0 where
  pub quiet : k.interrupts ≡ false
  pub queues : InOrder k
  pub left : (t : Thread) × (k.mem k.current ≡ some t) × (t.status ≢ running)

module _ (k : Kernel) (next : ℕ)
    (n : IsNext k.mem k.idle_thread next k.ready_list k.ready_list_low) where
  abbrev found : Thread
  found = n.found.0

  reset_wait-IsChosen :
      IsChosen (record (reset_wait next found k) { current = next }) (reset_count found)
  reset_wait-IsChosen = elim (Bool-cases (negative n.found.0.count)) [
    | inl e ↦ rw e (record {
      here = update_self k.mem next (some (record n.found.0 { count = minus_one }));
      count = inr (omega arith, omega arith);
      queues =
          update-IsQueues k.mem k.ready_list k.ready_list_low k.idle_thread n.rest next
            (record n.found.0 { count = minus_one }) n.not_high n.not_low n.found.2
            (inr (omega arith, omega arith));
      not_high = n.not_high;
      not_low = n.not_low;
    })
    | inr e ↦ rw e (record {
      here = n.found.1;
      count = n.found.3;
      queues = n.rest;
      not_high = n.not_high;
      not_low = n.not_low;
    })
  ]

  abbrev entered : Kernel
  entered = record (reset_wait next found k) { current = next }

  entered-freed :
      (prev : ℕ)
      → (prev ≡ null) ⊎ (prev ≢ next)
      → (q : ℕ) → q ≢ next
      → freed prev entered q ≡ freed prev k q
  entered-freed prev why q other = elim (Bool-cases (negative n.found.0.count)) [
    | inl e ↦
        rw e (freed-update prev next k (some (record n.found.0 { count = minus_one })) why q other)
    | inr e ↦ rw e
  ]

  entered-Runs :
      (prev : ℕ)
      → k.interrupts ≡ false
      → (prev ≡ null) ⊎ (prev ≢ next)
      → Returns (thread_schedule_tail prev entered) (Runs prev k next k.ready_list k.ready_list_low)
  entered-Runs prev quiet why =
      restart prev prev entered k next k.ready_list k.ready_list_low
        (thread_schedule_tail prev entered) (entered-freed prev why) refl refl
        (tail-Runs prev entered (reset_count found) quiet reset_wait-IsChosen why)

  -- The thread that runs on is not dying, so nothing is freed.
  nothing-freed : k.current ≡ next → (q : ℕ) → freed null k q ≡ freed k.current k q
  nothing-freed same q = ground (arith, n.found.1, n.found.2)

  switch_to-Runs :
      k.interrupts ≡ false
      → (t : Thread) → k.mem k.current ≡ some t
      → t.status ≢ running
      → Returns (switch_to next k) (Runs k.current k next k.ready_list k.ready_list_low)
  unfolding switch_to
  switch_to-Runs quiet t at stopped =
      let off : ensure (not k.interrupts) ≡ some tt = rw quiet in
      let stopped' : ensure (not (is_running t.status)) ≡ some tt = ground arith in
      rw (off, at, stopped', n.found.1)
        (elim (Bool-cases (k.current == next)) [
          | inl e ↦
              let same : k.current ≡ next = (==_iff k.current next).0 e in
              rw e (
                subst
                  (λ p.
                    Returns
                      (thread_schedule_tail null (record (reset_wait next found k) { current = p }))
                      (Runs k.current k next k.ready_list k.ready_list_low))
                  (sym same)
                  (restart null k.current k k next k.ready_list k.ready_list_low
                    (thread_schedule_tail null entered) (λ q ne. nothing-freed same q) refl refl
                    (entered-Runs null quiet (inl refl))))
          | inr e ↦
              let other : k.current ≢ next = ground arith in
              rw e (entered-Runs k.current quiet (inr other))
        ])

-- `schedule` runs the head of the queues.
pub schedule-Runs :
    (k : Kernel)
    → IsLeaving k
    → let (p, hs, ls) = next_of k.ready_list k.ready_list_low k.idle_thread in
      Returns (schedule k) (Runs k.current k p hs ls)
unfolding schedule
schedule-Runs k l =
    let (p, hs, ls) = next_of k.ready_list k.ready_list_low k.idle_thread in
    rw (next_thread_to_run_lem k) (
      restart k.current k.current (record k { ready_list = hs; ready_list_low = ls }) k p hs ls
        (switch_to p (record k { ready_list = hs; ready_list_low = ls })) (λ q ne. refl) refl refl
        (switch_to-Runs (record k { ready_list = hs; ready_list_low = ls }) p
          (next_of-IsNext k.mem k.idle_thread k.ready_list k.ready_list_low l.queues) l.quiet
          l.left.0 l.left.1 l.left.2))
