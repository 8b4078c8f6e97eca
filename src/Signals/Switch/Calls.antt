-- ===== src/Signals/Switch/Calls.antt =====
-- The calls of `schedule` by a thread that blocks or yields.
use linux_programming.Prelude.{
  ℕ, inl, inr, ◌+◌, true, not, some, false, List, [], ◌∷◌, ◌++◌, ◌≡◌, ◌≢◌, refl, ap, arith, ◌==◌,
  if◌then◌else◌, ensure, length, All-append, Absent, Absent-push, Distinct-push, Bool, Bool-cases,
  Returns, Returns-map,
}
use linux_programming.Prelude.Store.{update, update_self}
use linux_programming.Scheduler.{Status, running, ready, blocked, dying}
use linux_programming.Signals.{Thread, store}
use linux_programming.Signals.Handle.Receive.{current_lem}
use linux_programming.Signals.Switch.{Cpu, schedule, thread_block, thread_yield}
use linux_programming.Signals.Switch.Peace.{Peace, IsReady, Holds-Absent, Peace-write}
use linux_programming.Signals.Switch.Arrive.{Steady}
use linux_programming.Signals.Switch.Turn.{IsRunning}
use linux_programming.Signals.Switch.Chain.{with_interrupts, Settles, SettlesFrom, schedule-Settles}

module _ (queue : List ℕ) (c : Cpu) (s : Steady IsRunning queue c) where
  abbrev t : Thread
  t = s.current.0

  abbrev p : ℕ
  p = c.kernel.current

  out : Absent p queue
  out =
      let r = s.current.2 in
      Holds-Absent IsReady c.kernel.mem p t queue s.current.1 (λ e. cc) s.peace.waiting

  -- The running thread gets another status, and does not die.
  stopped :
      (st : Status)
      → st ≢ dying
      → Peace
          (update c.kernel.mem p (some (record t { status = st })))
          c.idle_thread
          queue
          c.kernel.all_list
  stopped st alive =
      Peace-write c.kernel.mem c.idle_thread queue c.kernel.all_list s.peace p t
        (record t { status = st }) s.current.1 out alive refl (s.peace.sane p t s.current.1)

  awake : ensure (not c.in_handler) ≡ some tt
  awake = let o = s.handler in rw o

  settled :
      (q : List ℕ) (c' : Cpu)
      → Steady (λ s. s ≢ running) q c'
      → Returns (schedule (length q + 1) true c') (Settles c'.idle_thread q c'.kernel.all_list)
  settled q c' h =
      Returns-map (SettlesFrom c'.kernel.mem c'.idle_thread q c'.kernel.all_list)
        (Settles c'.idle_thread q c'.kernel.all_list) (schedule (length q + 1) true c')
        (schedule-Settles (length q + 1) q c' h (omega arith)) (λ z h. h.0)

  -- With interrupts off, outside an interrupt handler, where memory is found, the queue holds distinct ready
  -- threads, the listed threads are distinct and not dying, the idle thread is neither dying nor in the queue
  -- and has no lifetime, the ignore set of each thread is a byte and its tid neither -1 nor its parent's, and
  -- each pending signal is known, is no SIG_UBLOCK or SIG_CPU, and no SIG_KILL of the idle thread:
  -- `thread_block` of the running thread returns, with the fuel for each thread of the queue and one more.
  -- Some first threads of the queue have exited: they are freed or dying, and the list of all threads has lost
  -- them and no others. The next one runs, or the idle thread if none is left.
  pub thread_block-Settles :
      Returns
        (thread_block (length queue + 1) true c)
        (Settles c.idle_thread queue c.kernel.all_list)
  unfolding thread_block
  thread_block-Settles =
      let off : ensure (not c.kernel.interrupts) ≡ some tt = let o = s.off in rw o in
      rw (awake, off, current_lem c.kernel t s.current.1 s.current.2)
        (settled queue (record c { kernel = store p (record t { status = blocked }) c.kernel })
          (record {
            off = s.off;
            handler = s.handler;
            ready_list = s.ready_list;
            current = (_, update_self c.kernel.mem p _, (λ e. cc));
            peace = stopped blocked (λ e. cc);
            signals = s.signals;
          }))

  -- The queue once the running thread yields.
  abbrev pub behind : List ℕ
  behind = if p == c.idle_thread then queue else queue ++ p ∷ []

  behind-Peace :
      Peace
        (update c.kernel.mem p (some (record t { status = ready })))
        c.idle_thread
        behind
        c.kernel.all_list
  behind-Peace =
      let h = stopped ready (λ e. cc) in
      elim (Bool-cases (p == c.idle_thread)) [
        | inl e ↦ rw e h
        | inr e ↦ rw e (record {
          waiting =
              All-append _ queue (p ∷ []) h.waiting
                ((record t { status = ready }, update_self c.kernel.mem p _, refl), tt);
          once = Distinct-push p queue h.once out;
          idles = h.idles;
          apart = Absent-push c.idle_thread p queue h.apart (ground (arith, e));
          alive = h.alive;
          all_once = h.all_once;
          sane = h.sane;
        })
      ]

  -- At any level of interrupts, outside an interrupt handler, where memory is found, the queue holds distinct
  -- ready threads, the listed threads are distinct and not dying, the idle thread is neither dying nor in the
  -- queue and has no lifetime, the ignore set of each thread is a byte and its tid neither -1 nor its
  -- parent's, and each pending signal is known, is no SIG_UBLOCK or SIG_CPU, and no SIG_KILL of the idle
  -- thread: `thread_yield` of the running thread returns, with the fuel for each thread of the queue and one
  -- more. The running thread goes to the end of the queue, unless it is the idle thread. Some first threads of
  -- that queue have exited: they are freed or dying, and the list of all threads has lost them and no others.
  -- The next one runs, or the idle thread if none is left.
  pub thread_yield-Settles :
      (b : Bool)
      → Returns
          (thread_yield (length behind + 1) true (with_interrupts b c))
          (Settles c.idle_thread behind c.kernel.all_list)
  unfolding thread_yield
  thread_yield-Settles b =
      rw (awake, current_lem (record c.kernel { interrupts = b }) t s.current.1 s.current.2)
        (settled behind
          (record c {
            kernel = record (store p (record t { status = ready }) c.kernel) {
              interrupts = false;
              ready_list =
                  if p == c.idle_thread then c.kernel.ready_list else c.kernel.ready_list ++ p ∷ [];
            };
          })
          (record {
            off = refl;
            handler = s.handler;
            ready_list =
                ap (λ (l : List ℕ). if p == c.idle_thread then l else l ++ p ∷ []) s.ready_list;
            current = (_, update_self c.kernel.mem p _, (λ e. cc));
            peace = behind-Peace;
            signals = s.signals;
          }))
