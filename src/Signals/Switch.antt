-- ===== src/Signals/Switch.antt =====
-- Pintos/Added_Signals/thread.c: the creation of threads and the switch between them, which ends in the
-- signals of the thread that is switched to. That thread may then exit, which switches again; `fuel` bounds
-- how often. `initial_thread` and `idle_thread` are the addresses of those threads, and 0 is NULL.
pub mod Create
mod Tests
pub mod Chain
pub mod Calls
pub mod Turn
pub mod Death
pub mod Arrive
pub mod Peace
use linux_programming.Prelude.{
  ℕ, zero, suc, ◌+◌, ◌-◌, ◌%◌, ◌^◌, Bool, true, false, not, ◌&&◌, Option, none, some, List, [], ◌∷◌,
  ◌++◌, leb, ltb, ◌==◌, if◌then◌else◌, ◌>>=◌, ◌>>◌, ensure, remove, take,
}
use linux_programming.Prelude.Store.{update}
use linux_programming.Scheduler.{running, ready, blocked, dying, is_running, is_dying}
use linux_programming.Signals.{Thread, Kernel, minus_one_int, store, thread_current, thread_unblock}
use linux_programming.Signals.Handle.{check_signals, notify_all}

-- The rest of the static variables.
pub record Cpu : Type 0 where
  pub kernel : Kernel
  pub idle_thread : ℕ
  pub initial_thread : ℕ
  pub thread_ticks : ℕ
  pub next_tid : ℕ
  pub in_handler : Bool
  pub yield_on_return : Bool

-- TIME_SLICE
abbrev pub time_slice : ℕ
time_slice = 4

-- `thread_tick`, in the timer's interrupt; its statistics are left out.
pub thread_tick : Cpu → Option Cpu
thread_tick c = do
  t ← thread_current c.kernel
  let ticks = (c.thread_ticks + 1) % 2 ^ 32
  some (record c {
    kernel = record c.kernel { clock_count = (c.kernel.clock_count + 1) % 2 ^ 64 };
    thread_ticks = ticks;
    yield_on_return = if leb time_slice ticks then true else c.yield_on_return;
  })

-- `init_thread`. A name is cut to the 15 bytes that fit before the terminator.
pub init_thread : (p : ℕ) (name : List ℕ) (priority : ℕ) → Kernel → Option Kernel
init_thread p name priority k = do
  ensure (not (p == 0))
  ensure (leb priority 63)
  some (record k {
    mem = update k.mem p (
        some (record {
          tid = 0;
          status = blocked;
          name = take 15 name;
          priority = priority;
          parent = 0;
          sigign = 0;
          sigmask = 0;
          starttime = 0;
          maxlifetime = 0;
          child = 0;
          dchild = 0;
        }));
    all_list = k.all_list ++ p ∷ [];
  })

-- `allocate_tid`; the lock around it is synch.c's. A `tid_t` is a bit pattern of 32 bits.
pub allocate_tid : Cpu → ℕ × Cpu
allocate_tid c = (c.next_tid, record c { next_tid = (c.next_tid + 1) % 2 ^ 32 })

-- The bit pattern of the `int8_t` ~0.
abbrev pub all_signals : ℕ
all_signals = 2 ^ 8 - 1

-- What `thread_create` writes to the new thread besides its identifier: its parent, and the signals.
abbrev pub born : (parent clock_count : ℕ) → Thread → Thread
born parent clock_count t = record t {
  parent = parent;
  sigign = all_signals;
  sigmask = 0;
  starttime = clock_count;
  maxlifetime = 0;
  child = 0;
  dchild = 0;
}

-- `thread_create`. `page` is what `palloc_get_page` returns, and the identifier `none` is TID_ERROR.
pub thread_create :
    (page function : ℕ) (name : List ℕ) (priority : ℕ) → Cpu → Option (Option ℕ × Cpu)
thread_create page function name priority c = do
  ensure (not (function == 0))
  if page == 0 then some (none, c) else do
    k ← init_thread page name priority c.kernel
    let (tid, c) = allocate_tid (record c { kernel = k })
    parent ← thread_current k
    let k = store k.current (record parent { child = (parent.child + 1) % 2 ^ 32 }) k
    t ← k.mem page
    k ← thread_unblock page (store page (born parent.tid k.clock_count (record t { tid = tid })) k)
    some (some tid, record c { kernel = k })

-- `thread_init`: `page` is that of the stack that the loader set up.
pub thread_init : (page : ℕ) (name : List ℕ) → Cpu → Option Cpu
thread_init page name c = do
  ensure (not c.kernel.interrupts)
  k ← init_thread page name 31 (record c.kernel { ready_list = []; all_list = [] })
  let (tid, c) = allocate_tid (record c { kernel = k; initial_thread = page })
  t ← k.mem page
  let t = record (born minus_one_int k.clock_count (record t { tid = tid })) {
    status = running;
    child = minus_one_int;
  }
  some (record c { kernel = record (store page t k) { sig_list = [] } })

-- `next_thread_to_run`
abbrev pub pick : List ℕ → Cpu → ℕ × Cpu
pick [] c = (c.idle_thread, c)
pick (p ∷ ps) c = (p, record c { kernel = record c.kernel { ready_list = ps } })

pub next_thread_to_run : Cpu → ℕ × Cpu
next_thread_to_run c = pick c.kernel.ready_list c

-- `prev != NULL && prev->status == THREAD_DYING && prev != initial_thread`
abbrev pub must_free : ℕ → Cpu → Bool
must_free prev c =
    not (prev == 0)
    && elim (c.kernel.mem prev) [ none ↦ false | some t ↦ is_dying t.status ]
    && not (prev == c.initial_thread)

-- `thread_schedule_tail`, up to a call of `thread_exit`, and whether it calls it.
pub thread_schedule_tail : (prev : ℕ) → Cpu → Option (Bool × Cpu)
thread_schedule_tail prev c = do
  ensure (not c.kernel.interrupts)
  t ← c.kernel.mem c.kernel.current
  let c = record c {
    kernel = store c.kernel.current (record t { status = running }) c.kernel;
    thread_ticks = 0;
  }
  c ←
      if must_free prev c
      then (do
        ensure (not (prev == c.kernel.current))
        some (record c { kernel = record c.kernel { mem = update c.kernel.mem prev none } }))
      else some c
  (exits, k) ← check_signals c.kernel
  some (exits, record c { kernel = k })

-- `schedule`, once it has `next`, up to a call of `thread_exit`.
pub switch_to : (next : ℕ) → Cpu → Option (Bool × Cpu)
switch_to next c = do
  ensure (not c.kernel.interrupts)
  cur ← c.kernel.mem c.kernel.current
  ensure (not (is_running cur.status))
  t ← c.kernel.mem next
  if c.kernel.current == next
      then thread_schedule_tail 0 c
      else thread_schedule_tail c.kernel.current
          (record c { kernel = record c.kernel { current = next } })

-- `thread_exit`, up to its call of `schedule`.
pub die : (allocated : Bool) → Cpu → Option Cpu
die allocated c = do
  ensure (not c.in_handler)
  t ← thread_current c.kernel
  k ←
      notify_all allocated c.kernel.current c.kernel.all_list
        (record c.kernel { interrupts = false })
  t ← thread_current k
  some (record c {
    kernel =
        store k.current (record t { status = dying })
          (record k { all_list = remove k.current k.all_list });
  })

-- `schedule`
unfoldable pub schedule : (fuel : ℕ) (allocated : Bool) → Cpu → Option Cpu
schedule zero allocated c = none
schedule (suc fuel) allocated c = do
  let (next, c) = next_thread_to_run c
  (exits, c) ← switch_to next c
  elim exits [ false ↦ some c | true ↦ do c ← die allocated c; schedule fuel allocated c ]

-- `thread_exit`
pub thread_exit : (fuel : ℕ) (allocated : Bool) → Cpu → Option Cpu
thread_exit fuel allocated c = do c ← die allocated c; schedule fuel allocated c

-- `thread_block`
pub thread_block : (fuel : ℕ) (allocated : Bool) → Cpu → Option Cpu
thread_block fuel allocated c = do
  ensure (not c.in_handler)
  ensure (not c.kernel.interrupts)
  t ← thread_current c.kernel
  schedule fuel allocated
      (record c { kernel = store c.kernel.current (record t { status = blocked }) c.kernel })

-- `thread_yield`, up to the switch.
pub thread_yield : (fuel : ℕ) (allocated : Bool) → Cpu → Option Cpu
thread_yield fuel allocated c = do
  t ← thread_current c.kernel
  ensure (not c.in_handler)
  let p = c.kernel.current
  let k = record c.kernel {
    interrupts = false;
    ready_list = if p == c.idle_thread then c.kernel.ready_list else c.kernel.ready_list ++ p ∷ [];
  }
  schedule fuel allocated (record c { kernel = store p (record t { status = ready }) k })
