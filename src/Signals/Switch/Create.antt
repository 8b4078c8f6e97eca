-- ===== src/Signals/Switch/Create.antt =====
-- What a new thread gets from `thread_create`.
use linux_programming.Prelude.{
  ℕ, ◌+◌, ◌%◌, ◌^◌, ◌≤◌, true, false, Option, some, List, [], ◌∷◌, ◌++◌, ◌≡◌, ◌≢◌, refl, arith, leb,
  ◌==◌, take, Returns,
}
use linux_programming.Scheduler.{running, ready}
use linux_programming.Signals.{Thread, thread_current, thread_unblock}
use linux_programming.Signals.Switch.{Cpu, init_thread, allocate_tid, all_signals, thread_create}

module _ (page function : ℕ) (name : List ℕ) (priority : ℕ) (c : Cpu) (parent : Thread) where
  -- A ready child of the running thread, created now, that ignores and masks no signal and lives for ever.
  abbrev pub newborn : Thread
  newborn = record {
    tid = c.next_tid;
    status = ready;
    name = take 15 name;
    priority = priority;
    parent = parent.tid;
    sigign = all_signals;
    sigmask = 0;
    starttime = c.kernel.clock_count;
    maxlifetime = 0;
    child = 0;
    dchild = 0;
  }

  pub record Makes (r : Option ℕ × Cpu) : Type 0 where
    pub tid : r.0 ≡ some c.next_tid
    pub next_tid : r.1.next_tid ≡ (c.next_tid + 1) % 2 ^ 32
    pub new : r.1.kernel.mem page ≡ some newborn
    pub current :
        r.1.kernel.mem c.kernel.current
        ≡ some (record parent { child = (parent.child + 1) % 2 ^ 32 })
    pub others : (q : ℕ) → q ≢ page → q ≢ c.kernel.current → r.1.kernel.mem q ≡ c.kernel.mem q
    pub ready_list : r.1.kernel.ready_list ≡ c.kernel.ready_list ++ page ∷ []
    pub all_list : r.1.kernel.all_list ≡ c.kernel.all_list ++ page ∷ []
    pub sig_list : r.1.kernel.sig_list ≡ c.kernel.sig_list
    pub runs : r.1.kernel.current ≡ c.kernel.current

  -- With a function, a priority in range, and a page that is not that of the running thread, `thread_create`
  -- returns the next identifier. The new thread is ready, at the end of the queue and of the list of all
  -- threads; it is a child of the running thread, which counts it, and no signal is masked or ignored.
  -- The other threads and the pending signals are as they were.
  pub thread_create-Makes :
      c.kernel.mem c.kernel.current ≡ some parent
      → parent.status ≡ running
      → page ≢ c.kernel.current
      → page ≢ 0
      → function ≢ 0
      → priority ≤ 63
      → Returns (thread_create page function name priority c) Makes
  unfolding thread_create init_thread allocate_tid thread_current thread_unblock
  thread_create-Makes at runs apart real code allowed =
      let no_code : (function == 0) ≡ false = ground (arith, code) in
      let no_page : (page == 0) ≡ false = ground (arith, real) in
      let in_range : leb priority 63 ≡ true = ground (arith, allowed) in
      let other : (page == c.kernel.current) ≡ false = ground (arith, apart) in
      let other' : (c.kernel.current == page) ≡ false = ground (arith, apart) in
      let same : (page == page) ≡ true = ground arith in
      let self : (c.kernel.current == c.kernel.current) ≡ true = ground arith in
      rw (no_code, no_page, in_range, other, at, runs, other', same)
        (record {
          tid = refl;
          next_tid = refl;
          new = rw same;
          current = rw (other, self);
          others = λ q new old.
              let not_new : (page == q) ≡ false = ground (arith, new) in
              let not_old : (c.kernel.current == q) ≡ false = ground (arith, old) in
              rw (not_new, not_old);
          ready_list = refl;
          all_list = refl;
          sig_list = refl;
          runs = refl;
        })
