-- ===== src/Scheduler/Calls.antt =====
-- `thread_yield`, `thread_block`, `thread_exit`: from a valid state each returns, in a valid state,
-- and the thread that runs next is the head of the queues.
use linux_programming.Prelude.{
  ℕ, Bool, false, not, some, List, [], ◌∷◌, ◌++◌, ◌≡◌, ◌≢◌, inl, inr, arith, refl, Absent, ◌==◌,
  if◌then◌else◌, Bool-cases, ensure, remove, Returns, Returns-map, Option, none, ◌∙◌,
}
use linux_programming.Prelude.Store.{update, update_self}
use linux_programming.Prelude.Int8.{negative}
use linux_programming.Scheduler.{
  Thread, Kernel, ready, blocked, dying, store, schedule, is_running, thread_current, thread_yield,
  thread_block, thread_exit, null,
}
use linux_programming.Scheduler.Invariant.{
  write-IsQueues, IsValid, update-IsQueues, not_ready-Absent, push_high-IsQueues, push_low-IsQueues,
}
use linux_programming.Scheduler.Next.{next_of}
use linux_programming.Scheduler.Switch.{Runs, freed, IsLeaving, schedule-Runs}

-- The queues once the thread `p` has given up the processor.
abbrev pub requeued : (p idle : ℕ) (low : Bool) (hs ls : List ℕ) → List ℕ × List ℕ
requeued p idle low hs ls =
    if p == idle then (hs, ls) else if low then (hs, ls ++ p ∷ []) else (hs ++ p ∷ [], ls)

-- What a call by the thread on the processor leads to: the next thread `p` runs, in a valid state
-- with the given queues and a new time slice; the caller's structure is `o`, the other threads are as
-- they were, and `al` is the list of all threads.
pub record Leaves (k : Kernel) (o : Option Thread) (al : List ℕ) (p : ℕ) (hs ls : List ℕ)
    (k' : Kernel) : Type 0 where
  pub valid : IsValid k'
  pub current : k'.current ≡ p
  pub high : k'.ready_list ≡ hs
  pub low : k'.ready_list_low ≡ ls
  pub slice : k'.thread_ticks ≡ 0
  pub caller : k.current ≢ p → k'.mem k.current ≡ o
  pub others : (q : ℕ) → q ≢ p → q ≢ k.current → k'.mem q ≡ k.mem q
  pub all_list : k'.all_list ≡ al

-- The caller's structure becomes `t`, its queues `hs` and `ls`, and `schedule` is called.
schedule-Leaves :
    (k start : Kernel) (t : Thread) (o : Option Thread)
    → IsLeaving start
    → start.current ≡ k.current
    → start.mem ≡ update k.mem k.current (some t)
    → freed k.current start k.current ≡ o
    → let (p, hs, ls) = next_of start.ready_list start.ready_list_low start.idle_thread in
      Returns (schedule start) (Leaves k o start.all_list p hs ls)
schedule-Leaves k start t o l here mem left =
    let (p, hs, ls) = next_of start.ready_list start.ready_list_low start.idle_thread in
    Returns-map (Runs start.current start p hs ls) (Leaves k o start.all_list p hs ls)
      (schedule start) (schedule-Runs start l)
      (λ k' r. record {
        valid = r.valid;
        current = r.current;
        high = r.high;
        low = r.low;
        slice = r.slice;
        caller = λ ne. r.others k.current ne ∙ (rw here left);
        others = λ q ne ne'. r.others q ne ∙ (rw here (other q ne'));
        all_list = r.all_list;
      })
  where
    other : (q : ℕ) → q ≢ k.current → freed k.current start q ≡ k.mem q
    other q ne = rw mem (ground arith)

module _ (k : Kernel) (v : IsValid k) where
  abbrev pub self : Thread
  self = v.current.0

  pub thread_current_lem : thread_current k ≡ some self
  unfolding thread_current
  thread_current_lem =
      let on : ensure (is_running self.status) ≡ some tt = ground arith in rw (v.current.1, on)

  pub self-Absent : Absent k.current k.ready_list × Absent k.current k.ready_list_low
  self-Absent =
      not_ready-Absent k.mem k.ready_list k.ready_list_low k.idle_thread v.queues k.current self
        v.current.1 (λ r. ground arith)

  outside_handler : k.in_handler ≡ false → ensure (not k.in_handler) ≡ some tt
  outside_handler e = rw e

  abbrev yielding : Thread
  yielding = record self { status = ready }

  -- The running thread goes to the end of the queue that its count names, the idle thread to none.
  pub thread_yield-Leaves :
      k.in_handler ≡ false
      → let (hs, ls) =
          requeued k.current k.idle_thread (negative self.count) k.ready_list k.ready_list_low in
        let (p, hs', ls') = next_of hs ls k.idle_thread in
        Returns
          (thread_yield k)
          (Leaves k (some (record self { status = ready })) k.all_list p hs' ls')
  unfolding thread_yield
  thread_yield-Leaves outside =
      rw (thread_current_lem, outside_handler outside)
        (elim (Bool-cases (k.current == k.idle_thread)) [
          | inl e ↦ rw e (
              schedule-Leaves k (store k.current yielding (record k { interrupts = false }))
                yielding (some yielding)
                (record {
                  quiet = refl;
                  queues =
                      update-IsQueues k.mem k.ready_list k.ready_list_low k.idle_thread v.queues
                        k.current yielding self-Absent.0 self-Absent.1 (cc) v.current.3;
                  left = (yielding, update_self k.mem k.current (some yielding), cc);
                })
                refl refl (ground arith))
          | inr e ↦ rw e (elim (Bool-cases (negative self.count)) [
            | inl low ↦ rw low (
                schedule-Leaves k
                  (store k.current yielding (record k {
                    interrupts = false;
                    ready_list_low = k.ready_list_low ++ k.current ∷ [];
                  }))
                  yielding (some yielding)
                  (record {
                    quiet = refl;
                    queues =
                        push_low-IsQueues k.mem k.ready_list k.ready_list_low k.idle_thread v.queues
                          k.current yielding self-Absent.0 self-Absent.1 refl low v.current.3;
                    left = (yielding, update_self k.mem k.current (some yielding), cc);
                  })
                  refl refl (ground arith))
            | inr high ↦ rw high (
                schedule-Leaves k
                  (store k.current yielding
                    (record k { interrupts = false; ready_list = k.ready_list ++ k.current ∷ [] }))
                  yielding (some yielding)
                  (record {
                    quiet = refl;
                    queues =
                        push_high-IsQueues k.mem k.ready_list k.ready_list_low k.idle_thread
                          v.queues k.current yielding self-Absent.0 self-Absent.1 refl high
                          v.current.3;
                    left = (yielding, update_self k.mem k.current (some yielding), cc);
                  })
                  refl refl (ground arith))
          ])
        ])

  -- The running thread leaves the processor and goes to no queue.
  pub thread_block-Leaves :
      k.in_handler ≡ false
      → k.interrupts ≡ false
      → let (p, hs, ls) = next_of k.ready_list k.ready_list_low k.idle_thread in
        Returns
          (thread_block k)
          (Leaves k (some (record self { status = blocked })) k.all_list p hs ls)
  unfolding thread_block
  thread_block-Leaves outside quiet =
      let off : ensure (not k.interrupts) ≡ some tt = rw quiet in
      let t : Thread = record self { status = blocked } in
      rw (outside_handler outside, off, thread_current_lem)
        (schedule-Leaves k (store k.current t k) t (some t)
          (record {
            quiet = quiet;
            queues =
                update-IsQueues k.mem k.ready_list k.ready_list_low k.idle_thread v.queues k.current
                  t self-Absent.0 self-Absent.1 (cc) v.current.3;
            left = (t, update_self k.mem k.current (some t), cc);
          })
          refl refl (ground arith))

  -- The thread that exits goes to no queue, is taken off the list of all threads, and its page is
  -- freed; the idle thread and the initial thread are left aside.
  pub thread_exit-Leaves :
      k.in_handler ≡ false
      → k.current ≢ k.idle_thread
      → k.current ≢ null
      → k.current ≢ k.initial_thread
      → let (p, hs, ls) = next_of k.ready_list k.ready_list_low k.idle_thread in
        Returns (thread_exit k) (Leaves k none (remove k.current k.all_list) p hs ls)
  unfolding thread_exit
  thread_exit-Leaves outside busy real other =
      let t : Thread = record self { status = dying } in
      rw (outside_handler outside, thread_current_lem)
        (schedule-Leaves k
          (store k.current t
            (record k { interrupts = false; all_list = remove k.current k.all_list }))
          t none
          (record {
            quiet = refl;
            queues =
                write-IsQueues k.mem k.ready_list k.ready_list_low k.idle_thread v.queues k.current
                  (some t) self-Absent.0 self-Absent.1 busy;
            left = (t, update_self k.mem k.current (some t), cc);
          })
          refl refl (ground arith))
