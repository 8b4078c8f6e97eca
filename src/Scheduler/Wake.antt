-- ===== src/Scheduler/Wake.antt =====
-- `thread_unblock` and `thread_create`: a thread enters the queue that its count names.
use linux_programming.Prelude.{
  ℕ, ◌+◌, ◌%◌, ◌^◌, ◌≤◌, true, false, not, Option, none, some, List, [], ◌∷◌, ◌++◌, ◌≡◌, ◌≢◌, inl,
  inr, arith, refl, ◌∙◌, ◌==◌, leb, if◌then◌else◌, Bool-cases, ensure, Returns, Returns-bind,
  Absent, take,
}
use linux_programming.Prelude.Store.{update, update_self, update_ne}
use linux_programming.Prelude.Int8.{negative}
use linux_programming.Scheduler.{
  Thread, Kernel, ready, blocked, is_blocked, null, pri_max, store, init_thread, allocate_tid,
  thread_unblock, thread_create,
}
use linux_programming.Scheduler.Invariant.{
  IsCount, IsValid, not_ready-Absent, empty-Absent, write-IsQueues, push_high-IsQueues,
  push_low-IsQueues,
}

-- The thread `p` has entered a queue as `t`; the running thread and the other threads are as before.
pub record Enters (k : Kernel) (p : ℕ) (t : Thread) (hs ls : List ℕ) (k' : Kernel) : Type 0 where
  pub valid : IsValid k'
  pub current : k'.current ≡ k.current
  pub high : k'.ready_list ≡ hs
  pub low : k'.ready_list_low ≡ ls
  pub entered : k'.mem p ≡ some t
  pub others : (q : ℕ) → q ≢ p → k'.mem q ≡ k.mem q
  pub all_list : k'.all_list ≡ k.all_list
  pub next_tid : k'.next_tid ≡ k.next_tid

module _ (k : Kernel) (v : IsValid k) (p : ℕ) (t : Thread) (at : k.mem p ≡ some t)
    (b : t.status ≡ blocked) (c : IsCount t.count) where
  abbrev woken : Thread
  woken = record t { status = ready }

  apart : Absent p k.ready_list × Absent p k.ready_list_low
  apart =
      not_ready-Absent k.mem k.ready_list k.ready_list_low k.idle_thread v.queues p t at
        (λ r. ground arith)

  still_running : update k.mem p (some woken) k.current ≡ some v.current.0
  still_running = update_ne k.mem p (some woken) k.current (λ same. ground arith) ∙ v.current.1

  -- A blocked thread goes to the end of the low queue if its count is negative, else to the end of
  -- the high one, and is ready.
  pub thread_unblock-Enters :
      let low = negative t.count in
      Returns (thread_unblock p k) (
        Enters k p woken
          (if low then k.ready_list else k.ready_list ++ p ∷ [])
          (if low then k.ready_list_low ++ p ∷ [] else k.ready_list_low))
  unfolding thread_unblock
  thread_unblock-Enters =
      let sleeps : ensure (is_blocked t.status) ≡ some tt = ground arith in
      rw (at, sleeps)
        (elim (Bool-cases (negative t.count)) [
          | inl low ↦ rw low (record {
            valid = record {
              queues =
                  push_low-IsQueues k.mem k.ready_list k.ready_list_low k.idle_thread v.queues p
                    woken apart.0 apart.1 refl low c;
              current = (v.current.0, still_running, v.current.2, v.current.3);
            };
            current = refl;
            high = refl;
            low = refl;
            entered = update_self k.mem p (some woken);
            others = update_ne k.mem p (some woken);
            all_list = refl;
            next_tid = refl;
          })
          | inr high ↦ rw high (record {
            valid = record {
              queues =
                  push_high-IsQueues k.mem k.ready_list k.ready_list_low k.idle_thread v.queues p
                    woken apart.0 apart.1 refl high c;
              current = (v.current.0, still_running, v.current.2, v.current.3);
            };
            current = refl;
            high = refl;
            low = refl;
            entered = update_self k.mem p (some woken);
            others = update_ne k.mem p (some woken);
            all_list = refl;
            next_tid = refl;
          })
        ])

-- What a new thread starts as.
abbrev pub created : (tid : ℕ) (name : List ℕ) (priority : ℕ) → Thread
created tid name priority = record {
  tid = tid;
  status = ready;
  name = take 15 name;
  priority = priority;
  count = 0;
}

-- The thread at `page` has been created; the threads that there were are as before.
pub record Creates (k : Kernel) (page : ℕ) (t : Thread) (r : Option ℕ × Kernel) : Type 0 where
  pub tid : r.0 ≡ some k.next_tid
  pub valid : IsValid r.1
  pub current : r.1.current ≡ k.current
  pub high : r.1.ready_list ≡ k.ready_list ++ page ∷ []
  pub low : r.1.ready_list_low ≡ k.ready_list_low
  pub here : r.1.mem page ≡ some t
  pub others : (q : ℕ) → q ≢ page → r.1.mem q ≡ k.mem q
  pub all_list : r.1.all_list ≡ k.all_list ++ page ∷ []
  pub next_tid : r.1.next_tid ≡ (k.next_tid + 1) % 2 ^ 32

module _ (k : Kernel) (v : IsValid k) (page function : ℕ) (name : List ℕ) (priority : ℕ)
    (fresh : k.mem page ≡ none) (real : page ≢ null) (allowed : priority ≤ pri_max) where
  -- The structure that `init_thread` fills in, and that `thread_create` numbers.
  abbrev blank : Thread
  blank = record { tid = 0; status = blocked; name = take 15 name; priority = priority; count = 0 }

  abbrev numbered : Thread
  numbered = record blank { tid = k.next_tid; count = 0 }

  abbrev before_wake : Kernel
  before_wake = store page numbered (record k {
    mem = update k.mem page (some blank);
    all_list = k.all_list ++ page ∷ [];
    next_tid = (k.next_tid + 1) % 2 ^ 32;
  })

  before_wake-IsValid : IsValid before_wake
  before_wake-IsValid =
      let ah = empty-Absent k.mem false page k.ready_list fresh v.queues.high in
      let al = empty-Absent k.mem true page k.ready_list_low fresh v.queues.low in
      let other : page ≢ k.idle_thread = (λ same. let e = v.queues.idle.1 in ground arith) in
      let apart : k.current ≢ page = (λ same. let e = v.current.1 in ground arith) in
      record {
        queues =
            write-IsQueues (update k.mem page (some blank)) k.ready_list k.ready_list_low
              k.idle_thread
              (write-IsQueues k.mem k.ready_list k.ready_list_low k.idle_thread v.queues page
                (some blank) ah al other)
              page (some numbered) ah al other;
        current = (
          v.current.0,
          update_ne (update k.mem page (some blank)) page (some numbered) k.current apart
              ∙ update_ne k.mem page (some blank) k.current apart
              ∙ v.current.1,
          v.current.2,
          v.current.3,
        );
      }

  -- A new thread is ready, at the end of the high queue and of the list of all threads, with the next
  -- identifier.
  pub thread_create-Creates :
      function ≢ null
      → Returns
          (thread_create page function name priority k)
          (Creates k page (created k.next_tid name priority))
  unfolding thread_create init_thread allocate_tid
  thread_create-Creates code =
      let given : ensure (not (function == null)) ≡ some tt = ground arith in
      let paged : (page == null) ≡ false = ground arith in
      let ranked : ensure (leb priority pri_max) ≡ some tt = ground arith in
      rw (given, paged, ranked, update_self k.mem page (some blank))
        (Returns-bind
          (Enters before_wake page (created k.next_tid name priority) (k.ready_list ++ page ∷ [])
            k.ready_list_low)
          (Creates k page (created k.next_tid name priority)) (thread_unblock page before_wake)
          (λ k'. some (some k.next_tid, k'))
          (thread_unblock-Enters before_wake before_wake-IsValid page numbered
            (update_self (update k.mem page (some blank)) page (some numbered)) refl
            (inl (omega arith)))
          (λ k' e. record {
            tid = refl;
            valid = e.valid;
            current = e.current;
            high = e.high;
            low = e.low;
            here = e.entered;
            others = λ q ne.
                e.others q ne
                ∙ update_ne (update k.mem page (some blank)) page (some numbered) q ne
                ∙ update_ne k.mem page (some blank) q ne;
            all_list = e.all_list;
            next_tid = e.next_tid;
          }))

-- Without a page no thread is created, and nothing changes.
pub thread_create-no_page :
    (function : ℕ) (name : List ℕ) (priority : ℕ) (k : Kernel)
    → function ≢ null
    → thread_create null function name priority k ≡ some (none, k)
unfolding thread_create
thread_create-no_page function name priority k code =
    let given : ensure (not (function == null)) ≡ some tt = ground arith in rw given
