-- ===== src/Scheduler/Tests.antt =====
-- The functions of thread.c on a small kernel, and each theorem at it.
use linux_programming.Prelude.{
  ℕ, ◌+◌, ◌≤◌, true, false, Option, none, some, [], ◌∷◌, ◌≡◌, inl, inr, arith, refl, Returns,
}
use linux_programming.Prelude.Store.{update}
use linux_programming.Scheduler.{
  Thread, Kernel, Status, running, ready, blocked, thread_current, thread_yield, thread_exit,
  thread_create, thread_tick, schedule, switch_to, next_thread_to_run, thread_schedule_tail, age,
  age_thread, preempt,
}
use linux_programming.Scheduler.Invariant.{IsValid}
use linux_programming.Scheduler.Calls.{Leaves, thread_yield-Leaves, thread_exit-Leaves}
use linux_programming.Scheduler.Wake.{Creates, created, thread_create-Creates}
use linux_programming.Scheduler.Tick.{Ticks, thread_tick-Ticks}
use linux_programming.Scheduler.Steps.{Step, ticks, yields, IsGood}
use linux_programming.Scheduler.Waiting.{begins, goes, Waits-bound}
use linux_programming.Scheduler.Turn.{Run, switches, RunsIn, Run-IsGood, Run-RunsIn}
use linux_programming.Scheduler.{thread_block, thread_unblock}
use linux_programming.Scheduler.Turn
use linux_programming.Scheduler.Boot.{boot}
use linux_programming.Scheduler.Boot.Start.{boot-IsGood}

abbrev thread : ℕ → Status → ℕ → Thread
thread tid status count = record {
  tid = tid;
  status = status;
  name = [];
  priority = 31;
  count = count;
}

-- The thread 3 runs; 2 is idle, 4 waits in the high queue, 5 and 6 in the low one, 5 for its last
-- tick, and 7 is blocked.
abbrev demo : Kernel
demo = record {
  mem =
      update
        (update
          (update
            (update
              (update (update (λ p. none) 2 (some (thread 2 blocked 0))) 3
                (some (thread 3 running 1)))
              4 (some (thread 4 ready 0)))
            5 (some (thread 5 ready 232)))
          6 (some (thread 6 ready 255)))
        7 (some (thread 7 blocked 254));
  ready_list = 4 ∷ [];
  ready_list_low = 5 ∷ 6 ∷ [];
  all_list = 2 ∷ 3 ∷ 4 ∷ 5 ∷ 6 ∷ 7 ∷ [];
  idle_thread = 2;
  initial_thread = 1;
  current = 3;
  thread_ticks = 3;
  clock_count = 100;
  idle_ticks = 10;
  kernel_ticks = 90;
  next_tid = 8;
  interrupts = false;
  in_handler = false;
  yield_on_return = false;
}

abbrev demo-IsValid : IsValid demo
demo-IsValid = record {
  queues = record {
    high = ((thread 4 ready 0, refl, refl, refl, inl (omega arith)), tt);
    low = (
      (thread 5 ready 232, refl, refl, refl, inr (omega arith, omega arith)),
      ((thread 6 ready 255, refl, refl, refl, inr (omega arith, omega arith)), tt),
    );
    distinct_high = (tt, tt);
    distinct_low = (((λ e. omega arith), tt), (tt, tt));
    idle = (thread 2 blocked 0, refl, (λ d. cc), inl (omega arith));
  };
  current = (thread 3 running 1, refl, refl, inl (omega arith));
}

-- After its second slice in the high queue the thread 3 belongs to the low one; the thread 5 has
-- waited long enough.
tick_demo : Returns (thread_tick demo) (λ k.
    (k.ready_list ≡ 4 ∷ 5 ∷ [])
    × (k.ready_list_low ≡ 6 ∷ [])
    × (k.mem 3 ≡ some (thread 3 running 255))
    × (k.mem 5 ≡ some (thread 5 ready 0))
    × (k.mem 6 ≡ some (thread 6 ready 254))
    × (k.yield_on_return ≡ true))
unfolding thread_tick thread_current age age_thread preempt
tick_demo = (refl, refl, refl, refl, refl, refl)

yield_demo :
    Returns
      (thread_yield demo)
      (λ k. (k.current ≡ 4) × (k.ready_list ≡ 3 ∷ []) × (k.mem 4 ≡ some (thread 4 running 0)))
unfolding thread_yield thread_current schedule next_thread_to_run switch_to thread_schedule_tail
yield_demo = (refl, refl, refl)

thread_yield-Leaves_example :
    Returns
      (thread_yield demo)
      (Leaves demo (some (thread 3 ready 1)) demo.all_list 4 (3 ∷ []) (5 ∷ 6 ∷ []))
thread_yield-Leaves_example = thread_yield-Leaves demo demo-IsValid refl

thread_exit-Leaves_example :
    Returns (thread_exit demo) (Leaves demo none (2 ∷ 4 ∷ 5 ∷ 6 ∷ 7 ∷ []) 4 [] (5 ∷ 6 ∷ []))
thread_exit-Leaves_example =
    thread_exit-Leaves demo demo-IsValid refl (omega arith) (omega arith) (omega arith)

thread_create-Creates_example :
    Returns (thread_create 8 1000 (b'a' ∷ []) 31 demo) (Creates demo 8 (created 8 (b'a' ∷ []) 31))
thread_create-Creates_example =
    thread_create-Creates demo demo-IsValid 8 1000 (b'a' ∷ []) 31 refl (omega arith) (omega arith)
      (omega arith)

thread_tick-Ticks_example : Returns (thread_tick demo) (Ticks demo (thread 3 running 1))
thread_tick-Ticks_example = thread_tick-Ticks demo demo-IsValid

demo-IsGood : IsGood demo
demo-IsGood = record { valid = demo-IsValid; counts = λ p t e. ground (arith, e) }

-- The kernel that a call leaves.
abbrev left_by : Option Kernel → Kernel
left_by none = demo
left_by (some k) = k

tick_step : Step demo (left_by (thread_tick demo))
unfolding thread_tick thread_current age age_thread preempt
tick_step = ticks demo (left_by (thread_tick demo)) refl

-- The thread 3 yields, and 4 runs.
abbrev once : Kernel
once = left_by (thread_yield demo)

yield_step : Step demo once
unfolding thread_yield thread_current schedule next_thread_to_run switch_to thread_schedule_tail
yield_step = yields demo once refl

-- The thread 6 waits for a tick, at which 3 runs.
Waits-bound_example : (t : Thread) × (demo.mem 6 ≡ some t) × (1 + 232 ≤ t.count) × (t.count ≤ 255)
unfolding thread_tick thread_current age age_thread preempt
Waits-bound_example = Waits-bound 6 demo (left_by (thread_tick demo)) 1 demo-IsGood (
    goes 0 demo (left_by (thread_tick demo)) (begins (5 ∷ [], [], refl))
      (ticks demo (left_by (thread_tick demo)) refl) ([], [], refl))

Run-IsGood_example : IsGood once
Run-IsGood_example = Run-IsGood demo-IsGood (Turn.goes 0 demo once Turn.begins yield_step)

Run-RunsIn_example : RunsIn 4 (Turn.goes 0 demo once Turn.begins yield_step)
unfolding yield_step
Run-RunsIn_example =
    Run-RunsIn 4 [] [] demo once (0 + switches yield_step)
      (Turn.goes 0 demo once Turn.begins yield_step) demo-IsGood refl (omega arith)

-- No thread stands anywhere, and the stack is that of the page 3.
abbrev bare : Kernel
bare = record demo { mem = λ p. none }

abbrev sema_down : Kernel → Option Kernel
sema_down k = thread_block (record k { interrupts = false })

abbrev sema_up : Kernel → Option Kernel
sema_up k = thread_unblock 3 k

boot-IsGood_example : Returns (boot sema_down sema_up 3 [] 4 1000 bare) (λ k.
    IsGood k
    × (k.current ≡ 3)
    × (k.idle_thread ≡ 4)
    × (k.ready_list ≡ [])
    × (k.ready_list_low ≡ []))
boot-IsGood_example =
    boot-IsGood 3 4 (omega arith) (omega arith) (omega arith) sema_down sema_up (λ k. refl)
      (λ k. refl) 1000 (omega arith) [] bare
      (record { memory = λ p. refl; current = refl; quiet = refl; outside = refl })
