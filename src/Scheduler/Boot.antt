-- ===== src/Scheduler/Boot.antt =====
-- thread.c, how the threads start: `thread_start`, the idle thread, the first function of a thread; and the calls that
-- read or set what the running thread is. The semaphores of synch.c are arguments.
pub mod Pair
pub mod Start
use linux_programming.Prelude.{
  ℕ, ◌+◌, Bool, true, false, not, Option, none, some, List, [], ◌∷◌, ◌++◌, ◌≡◌, ◌≢◌, refl, sym, ◌∙◌,
  ap, arith, ◌==◌, ==_iff, Bool-cases, subst, leb, if◌then◌else◌, inl, inr, ◌>>=◌, ◌>>◌, ensure,
  is_empty, take, Returns, Returns-bind, Returns-map,
}
use linux_programming.Prelude.Store.{update, update_self, update_ne}
use linux_programming.Prelude.Int8.{negative}
use linux_programming.Scheduler.{
  Status, running, ready, blocked, dying, Thread, Kernel, null, store, thread_current, init_thread,
  allocate_tid, thread_unblock, thread_create, next_thread_to_run, thread_schedule_tail, switch_to,
  schedule, thread_block, thread_exit, thread_init,
}
use linux_programming.Scheduler.Invariant.{IsCount, IsValid}
use linux_programming.Scheduler.Steps.{IsGood}

-- `"idle"`
abbrev pub idle_name : List ℕ
idle_name = b'i' ∷ b'd' ∷ b'l' ∷ b'e' ∷ []

-- PRI_MIN
abbrev pub pri_min : ℕ
pri_min = 0

-- `thread_start`: `page` is that of the idle thread, `idle` its function, and `sema_down` that of `idle_started`.
pub thread_start : (sema_down : Kernel → Option Kernel) (page idle : ℕ) → Kernel → Option Kernel
thread_start sema_down page idle k = do
  (tid, k) ← thread_create page idle idle_name pri_min k
  sema_down (record k { interrupts = true })

-- `idle`, up to its loop.
pub idle_begins : (sema_up : Kernel → Option Kernel) → Kernel → Option Kernel
idle_begins sema_up k = do t ← thread_current k; sema_up (record k { idle_thread = k.current })

-- A round of the loop of `idle`, up to the switch.
pub idle_round : Kernel → Option Kernel
idle_round k = thread_block (record k { interrupts = false })

-- `kernel_thread`: `code` is what the thread's function does.
pub kernel_thread : (code : Kernel → Option Kernel) (function : ℕ) → Kernel → Option Kernel
kernel_thread code function k = do
  ensure (not (function == null))
  k ← code (record k { interrupts = true })
  thread_exit k

-- `thread_name`, `thread_tid`, `thread_get_priority` and `thread_set_priority`.
pub thread_name : Kernel → Option (List ℕ)
thread_name k = do t ← thread_current k; some t.name

pub thread_tid : Kernel → Option ℕ
thread_tid k = do t ← thread_current k; some t.tid

pub thread_get_priority : Kernel → Option ℕ
thread_get_priority k = do t ← thread_current k; some t.priority

pub thread_set_priority : ℕ → Kernel → Option Kernel
thread_set_priority priority k = do
  t ← thread_current k
  some (store k.current (record t { priority = priority }) k)

-- The walk of `thread_foreach` over the threads that the list held at its start.
abbrev pub each : (func : ℕ → Kernel → Option Kernel) → List ℕ → Kernel → Option Kernel
each func [] k = some k
each func (p ∷ ps) k = do k ← func p k; each func ps k

-- `thread_foreach`, with a function that leaves the list of all threads as it is.
pub thread_foreach : (func : ℕ → Kernel → Option Kernel) → Kernel → Option Kernel
thread_foreach func k = do ensure (not k.interrupts); each func k.all_list k

-- The start of the kernel: `thread_init` and `thread_start` by the initial thread, `idle` by the idle thread up to its
-- first switch, after which the initial thread goes on.
pub boot :
    (sema_down sema_up : Kernel → Option Kernel) (page : ℕ) (name : List ℕ) (idle_page idle : ℕ)
    → Kernel
    → Option Kernel
boot sema_down sema_up page name idle_page idle k = do
  k ← thread_init page name k
  k ← thread_start sema_down idle_page idle k
  k ← idle_begins sema_up (record k { interrupts = true })
  idle_round k
