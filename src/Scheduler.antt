-- ===== src/Scheduler.antt =====
-- Pintos/Scheduler_changes/thread.c and thread.h: threads, the two ready queues, and the functions
-- that move a thread between them. A `struct thread` is known by the address of its page, a list of
-- lib/kernel/list.h is the sequence of the threads whose elements it links, and `none` is a failed
-- ASSERT. The lines under `#ifdef USERPROG` are left out, as in the kernel of the threads project.
pub mod Invariant
pub mod Next
pub mod Switch
pub mod Calls
pub mod Wake
pub mod Aging
pub mod Tick
pub mod Contracts
pub mod Steps
pub mod Waiting
pub mod Turn
pub mod Boot
mod Tests
use linux_programming.Prelude.{
  ℕ, ◌+◌, ◌%◌, ◌^◌, Bool, true, false, not, ◌&&◌, Option, none, some, List, [], ◌∷◌, ◌++◌, leb, ltb,
  ◌==◌, if◌then◌else◌, ◌>>=◌, ◌>>◌, ensure, is_empty, remove, take,
}
use linux_programming.Prelude.Store.{update}
use linux_programming.Prelude.Int8.{negative, incr, decr, minus_one}

-- `enum thread_status`
pub data Status : Type 0 where
  running ready blocked dying : Status

abbrev pub is_running : Status → Bool
is_running running = true
is_running _ = false

abbrev pub is_blocked : Status → Bool
is_blocked blocked = true
is_blocked _ = false

abbrev pub is_dying : Status → Bool
is_dying dying = true
is_dying _ = false

-- `struct thread`. `count` is an `int8_t` and `priority` an `int`, both as bit patterns. The saved
-- stack pointer serves switch.S alone; the list elements are the places in the lists below; a page
-- whose `magic` is right is one at which the memory below holds a thread.
pub record Thread : Type 0 where
  pub tid : ℕ
  pub status : Status
  pub name : List ℕ
  pub priority : ℕ
  pub count : ℕ

-- The static variables of thread.c, the thread whose stack the processor is on, and the interrupt
-- flags of the processor.
pub record Kernel : Type 0 where
  pub mem : ℕ → Option Thread
  pub ready_list : List ℕ
  pub ready_list_low : List ℕ
  pub all_list : List ℕ
  pub idle_thread : ℕ
  pub initial_thread : ℕ
  pub current : ℕ
  pub thread_ticks : ℕ
  pub clock_count : ℕ
  pub idle_ticks : ℕ
  pub kernel_ticks : ℕ
  pub next_tid : ℕ
  pub interrupts : Bool
  pub in_handler : Bool
  pub yield_on_return : Bool

abbrev pub null : ℕ
null = 0

abbrev pub time_slice : ℕ
time_slice = 4

abbrev pub time_slice_low : ℕ
time_slice_low = 8

-- `-WAITING_TIME`, the bit pattern of -24.
abbrev pub minus_waiting_time : ℕ
minus_waiting_time = 232

abbrev pub pri_max : ℕ
pri_max = 63

-- `*p = t`
abbrev pub store : ℕ → Thread → Kernel → Kernel
store p t k = record k { mem = update k.mem p (some t) }

-- `thread_current`: the running thread's structure, with its checks.
pub thread_current : Kernel → Option Thread
thread_current k = do t ← k.mem k.current; ensure (is_running t.status); some t

-- `init_thread`. A name is cut to the 15 bytes that fit before the terminator.
pub init_thread : ℕ → List ℕ → ℕ → Kernel → Option Kernel
init_thread p name priority k = do
  ensure (not (p == null))
  ensure (leb priority pri_max)
  some (record k {
    mem = update k.mem p (
        some (record {
          tid = 0;
          status = blocked;
          name = take 15 name;
          priority = priority;
          count = 0;
        }));
    all_list = k.all_list ++ p ∷ [];
  })

-- `allocate_tid`; the lock around it is synch.c's. A `tid_t` is a bit pattern of 32 bits.
pub allocate_tid : Kernel → ℕ × Kernel
allocate_tid k = (k.next_tid, record k { next_tid = (k.next_tid + 1) % 2 ^ 32 })

-- `thread_unblock`
pub thread_unblock : ℕ → Kernel → Option Kernel
thread_unblock p k = do
  t ← k.mem p
  ensure (is_blocked t.status)
  let k' =
      if negative t.count
      then record k { ready_list_low = k.ready_list_low ++ p ∷ [] }
      else record k { ready_list = k.ready_list ++ p ∷ [] }
  some (store p (record t { status = ready }) k')

-- `thread_create`. `page` is what `palloc_get_page` returns, and the identifier `none` is TID_ERROR.
pub thread_create :
    (page function : ℕ) (name : List ℕ) (priority : ℕ) → Kernel → Option (Option ℕ × Kernel)
thread_create page function name priority k = do
  ensure (not (function == null))
  if page == null then some (none, k) else do
    k ← init_thread page name priority k
    let (tid, k) = allocate_tid k
    t ← k.mem page
    k ← thread_unblock page (store page (record t { tid = tid; count = 0 }) k)
    some (some tid, k)

-- `next_thread_to_run`: the first of the high queue, else the first of the low one, else idle.
abbrev pick : List ℕ → List ℕ → Kernel → ℕ × Kernel
pick (p ∷ high) low k = (p, record k { ready_list = high })
pick [] (p ∷ low) k = (p, record k { ready_list_low = low })
pick [] [] k = (k.idle_thread, k)

pub next_thread_to_run : Kernel → ℕ × Kernel
next_thread_to_run k = pick k.ready_list k.ready_list_low k

-- `prev != NULL && prev->status == THREAD_DYING && prev != initial_thread`
abbrev must_free : ℕ → Kernel → Bool
must_free prev k =
    not (prev == null)
    && elim (k.mem prev) [ none ↦ false | some t ↦ is_dying t.status ]
    && not (prev == k.initial_thread)

-- `thread_schedule_tail`, on the stack of the thread switched to.
pub thread_schedule_tail : ℕ → Kernel → Option Kernel
thread_schedule_tail prev k = do
  ensure (not k.interrupts)
  t ← k.mem k.current
  let k' = record (store k.current (record t { status = running }) k) { thread_ticks = 0 }
  if must_free prev k'
      then (do
        ensure (not (prev == k'.current))
        some (record k' { mem = update k'.mem prev none }))
      else some k'

-- `if (next->count < 0) next->count = -1;`
abbrev pub reset_wait : ℕ → Thread → Kernel → Kernel
reset_wait next t k = record k {
  mem =
      if negative t.count then update k.mem next (some (record t { count = minus_one })) else k.mem;
}

-- `schedule`, once it has `next`. `switch_threads` moves the processor to the stack of `next` and
-- returns the thread that it left.
pub switch_to : ℕ → Kernel → Option Kernel
switch_to next k = do
  ensure (not k.interrupts)
  cur ← k.mem k.current
  ensure (not (is_running cur.status))
  t ← k.mem next
  if k.current == next
      then thread_schedule_tail null (reset_wait next t k)
      else thread_schedule_tail k.current (record (reset_wait next t k) { current = next })

-- `schedule`
pub schedule : Kernel → Option Kernel
schedule k = let (next, k') = next_thread_to_run k in switch_to next k'

-- `thread_block`
pub thread_block : Kernel → Option Kernel
thread_block k = do
  ensure (not k.in_handler)
  ensure (not k.interrupts)
  t ← thread_current k
  schedule (store k.current (record t { status = blocked }) k)

-- `thread_exit`
pub thread_exit : Kernel → Option Kernel
thread_exit k = do
  ensure (not k.in_handler)
  t ← thread_current k
  schedule (
      store k.current (record t { status = dying })
        (record k { interrupts = false; all_list = remove k.current k.all_list }))

-- The queue that `thread_yield` puts the running thread on: none for the idle thread.
abbrev requeue : ℕ → ℕ → Kernel → Kernel
requeue p count k =
    if p == k.idle_thread
    then k
    else if negative count
    then record k { ready_list_low = k.ready_list_low ++ p ∷ [] }
    else record k { ready_list = k.ready_list ++ p ∷ [] }

-- `thread_yield`, up to the switch. Its last line, `intr_set_level (old_level)`, runs when the
-- thread is scheduled again.
pub thread_yield : Kernel → Option Kernel
thread_yield k = do
  t ← thread_current k
  ensure (not k.in_handler)
  schedule (
      store k.current (record t { status = ready })
        (requeue k.current t.count (record k { interrupts = false })))

-- A thread of the low queue waits one tick more; after more than WAITING_TIME ticks it moves to the
-- end of the high queue.
pub age_thread : ℕ → Kernel → Option Kernel
age_thread p k = do
  t ← k.mem p
  let count = decr t.count
  if negative count && ltb count minus_waiting_time
      then some (
          store p (record t { count = 0 })
            (record k {
              ready_list_low = remove p k.ready_list_low;
              ready_list = k.ready_list ++ p ∷ [];
            }))
      else some (store p (record t { count = count }) k)

-- The loop of `thread_tick` over the low queue. What `list_remove` unlinks keeps its own link, so
-- the walk goes through the threads that the list held at its start.
pub age : List ℕ → Kernel → Option Kernel
age [] k = some k
age (p ∷ ps) k = age_thread p k >>= age ps

-- The preemption at the end of `thread_tick`, by the queue of the running thread.
pub preempt : Kernel → Option Kernel
preempt k = do
  t ← k.mem k.current
  let stop = record k { yield_on_return = true }
  if negative t.count
      then some (if is_empty k.ready_list && ltb k.thread_ticks time_slice_low then k else stop)
      else some (
          if ltb k.thread_ticks time_slice
          then k
          else store k.current
              (record t { count = if leb 1 t.count then minus_one else incr t.count }) stop)

-- The statistics of `thread_tick`.
abbrev pub count_tick : Kernel → Kernel
count_tick k = record k {
  idle_ticks = if k.current == k.idle_thread then k.idle_ticks + 1 else k.idle_ticks;
  kernel_ticks = if k.current == k.idle_thread then k.kernel_ticks else k.kernel_ticks + 1;
  clock_count = k.clock_count + 1;
}

-- `thread_tick`, in the timer's interrupt.
pub thread_tick : Kernel → Option Kernel
thread_tick k = do
  t ← thread_current k
  k ← if negative t.count then some (count_tick k) else age k.ready_list_low (count_tick k)
  preempt (record k { thread_ticks = (k.thread_ticks + 1) % 2 ^ 32 })

-- `thread_init`: `page` is that of the stack that the loader set up.
pub thread_init : (page : ℕ) (name : List ℕ) → Kernel → Option Kernel
thread_init page name k = do
  ensure (not k.interrupts)
  k ←
      init_thread page name 31
        (record k { ready_list = []; ready_list_low = []; all_list = []; initial_thread = page })
  let (tid, k) = allocate_tid k
  t ← k.mem page
  some (store page (record t { status = running; tid = tid }) k)
