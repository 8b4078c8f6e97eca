-- ===== src/Signals/Switch/Tests.antt =====
-- A kernel in which a switch meets a thread that has to exit, and each theorem about switches at it.
use linux_programming.Prelude.{
  ℕ, ◌+◌, true, false, none, some, List, [], ◌∷◌, ◌≡◌, refl, subst, arith, length, remove, Returns,
}
use linux_programming.Prelude.Store.{update}
use linux_programming.Scheduler.{Status, running, ready, blocked}
use linux_programming.Sig
use linux_programming.Signals.{Thread, minus_one_int}
use linux_programming.Signals.Switch.{Cpu, thread_exit, thread_yield, thread_create}
use linux_programming.Signals.Switch.Create.{Makes, thread_create-Makes}
use linux_programming.Signals.Switch.Peace.{Memory, IsSane, AllSane, AllSane-update}
use linux_programming.Signals.Switch.Arrive.{Steady, Dead}
use linux_programming.Signals.Switch.Turn.{IsRunning}
use linux_programming.Signals.Switch.Chain.{with_interrupts, Settles, thread_exit-Settles}
use linux_programming.Signals.Switch.Calls.{thread_yield-Settles}

abbrev thread : (tid : ℕ) → Status → (parent : ℕ) → Thread
thread tid s parent = record {
  tid = tid;
  status = s;
  name = [];
  priority = 31;
  parent = parent;
  sigign = 255;
  sigmask = 0;
  starttime = 5;
  maxlifetime = 0;
  child = 0;
  dchild = 0;
}

-- The thread 1 at page 10 runs, the idle thread 2 stands at page 40, and the threads 3 and 4 at the pages 20
-- and 30 are ready.
abbrev memory : Memory
memory =
    update
      (update
        (update (update (λ p. none) 10 (some (thread 1 running minus_one_int))) 20
          (some (thread 3 ready 1)))
        30 (some (thread 4 ready 1)))
      40 (some (thread 2 blocked minus_one_int))

-- The thread 3 is to be killed.
abbrev cpu : Cpu
cpu = record {
  kernel = record {
    mem = memory;
    ready_list = 20 ∷ 30 ∷ [];
    all_list = 10 ∷ 40 ∷ 20 ∷ 30 ∷ [];
    sig_list = record { sig = Sig.kill; sender = 1; receiver = 20 } ∷ [];
    current = 10;
    clock_count = 20;
    interrupts = false;
    console = [];
  };
  idle_thread = 40;
  initial_thread = 10;
  thread_ticks = 4;
  next_tid = 5;
  in_handler = false;
  yield_on_return = false;
}

abbrev waiting : List ℕ
waiting = 20 ∷ 30 ∷ []

abbrev yielded : List ℕ
yielded = 20 ∷ 30 ∷ 10 ∷ []

with-AllSane :
    (m : Memory) (p : ℕ) (t : Thread) → AllSane m → IsSane t → AllSane (update m p (some t))
with-AllSane m p t h s =
    AllSane-update m p (some t) h (λ u e. subst IsSane (let e' : t ≡ u = cc in e') s)

memory-AllSane : AllSane memory
memory-AllSane =
    with-AllSane _ 40 _
      (with-AllSane _ 30 _
        (with-AllSane _ 20 _
          (with-AllSane _ 10 _ (λ p u e. absurd (cc))
            (omega arith, (λ z. omega arith), (λ z. omega arith)))
          (omega arith, (λ z. omega arith), (λ z. omega arith)))
        (omega arith, (λ z. omega arith), (λ z. omega arith)))
      (omega arith, (λ z. omega arith), (λ z. omega arith))

cpu-Steady : Steady IsRunning waiting cpu
cpu-Steady = record {
  off = refl;
  handler = refl;
  ready_list = refl;
  current = (_, refl, refl);
  peace = record {
    waiting = ((_, refl, refl), ((_, refl, refl), tt));
    once = (((λ z. omega arith), tt), (tt, tt));
    idles = ((_, refl, ((λ z. cc), refl)), tt);
    apart = ((λ z. omega arith), ((λ z. omega arith), tt));
    alive = (
      (_, refl, (λ z. cc)),
      ((_, refl, (λ z. cc)), ((_, refl, (λ z. cc)), ((_, refl, (λ z. cc)), tt))),
    );
    all_once = (
      ((λ z. omega arith), ((λ z. omega arith), ((λ z. omega arith), tt))),
      (((λ z. omega arith), ((λ z. omega arith), tt)), (((λ z. omega arith), tt), (tt, tt))),
    );
    sane = memory-AllSane;
  };
  signals = ((omega arith, (λ z. omega arith), (λ z. omega arith), (λ y z. omega arith)), tt);
}

thread_exit-Settles_example :
    Returns (thread_exit (length waiting + 1) true (with_interrupts true cpu)) (λ c'.
      Settles 40 waiting (remove cpu.kernel.current cpu.kernel.all_list) c'
      × Dead c'.kernel.mem cpu.kernel.current)
thread_exit-Settles_example = thread_exit-Settles true waiting cpu cpu-Steady (λ z. omega arith)

thread_yield-Settles_example :
    Returns
      (thread_yield (length yielded + 1) true (with_interrupts true cpu))
      (Settles 40 yielded cpu.kernel.all_list)
thread_yield-Settles_example = thread_yield-Settles waiting cpu cpu-Steady true

thread_create-Makes_example :
    Returns (thread_create 50 7 [] 31 cpu) (Makes 50 7 [] 31 cpu (thread 1 running minus_one_int))
thread_create-Makes_example =
    thread_create-Makes 50 7 [] 31 cpu (thread 1 running minus_one_int) refl refl (λ z. omega arith)
      (λ z. omega arith) (λ z. omega arith) (omega arith)
