-- ===== src/Booking.antt =====
-- Multithread_server_client: the client A.c, which makes requests, and the server B.c, which books
-- tickets in one thread for each. The semaphores, the shared queue, the counter under `cnt_mutex2` and the
-- ticket under `cnt_mutex` are one state; a section that a mutex guards is one step.
pub mod Invariant
pub mod Queue
pub mod Runs
pub mod Setup
mod Tests
use linux_programming.Prelude.Int.{ℤ, pos, negsuc, ◌-ℤ◌, is_negative}
use linux_programming.Prelude.{
  ℕ, zero, suc, ◌+◌, ◌-◌, ◌%◌, Bool, true, false, not, Option, none, some, List, [], ◌∷◌, ◌++◌,
  get_elem?, set, ltb, leb, ◌==◌, if◌then◌else◌, ◌>>=◌,
}

-- Where the loop of A is: before P(PS), with a slot, and before V(CS).
pub data Producer : Type 0 where
  asking : Producer
  in_slot : Producer
  written : Producer

-- Where the loop of B is: before P(CS), before the count, in `pthread_cond_wait`, woken from it and before
-- its test, before the thread is created, and before V(PS).
pub data Consumer : Type 0 where
  idle : Consumer
  counting : Consumer
  waiting : Consumer
  woken : Consumer
  counted : Consumer
  taken : Consumer

-- A thread of `book_ticket`: its request, and whether it has left the first section.
pub record Worker : Type 0 where
  pub x : ℤ
  pub booked : Bool

pub record System : Type 0 where
  pub ps : ℕ
  pub cs : ℕ
  pub queue : ℕ → ℤ
  pub inp : ℕ
  pub out : ℕ
  pub producer : Producer
  pub consumer : Consumer
  pub global_count : ℕ
  pub ticket : ℤ
  pub workers : List Worker

-- The state before either loop runs.
abbrev pub start : (queue : ℕ → ℤ) → System
start queue = record {
  ps = 10;
  cs = 0;
  queue = queue;
  inp = 0;
  out = 0;
  producer = asking;
  consumer = idle;
  global_count = 0;
  ticket = pos 100;
  workers = [];
}

-- A step of A, where `rand` is what `rand()` returns; `none` is a semaphore that blocks.
unfoldable pub producer_step : (rand : ℕ) → System → Option System
producer_step rand s = elim s.producer [
  | asking ↦ if s.ps == 0 then none else some (record s { ps = s.ps - 1; producer = in_slot })
  | in_slot ↦ some (record s {
    queue = λ i. if i == s.inp then pos (rand % 11) -ℤ pos 5 else s.queue i;
    inp = (s.inp + 1) % 10;
    producer = written;
  })
  | written ↦ some (record s { cs = s.cs + 1; producer = asking })
]

-- A step of the main thread of B; in `pthread_cond_wait` it makes none.
unfoldable pub consumer_step : System → Option System
consumer_step s = elim s.consumer [
  | idle ↦ if s.cs == 0 then none else some (record s { cs = s.cs - 1; consumer = counting })
  | counting ↦
      if ltb s.global_count 10
      then some (record s { global_count = s.global_count + 1; consumer = counted })
      else some (record s { consumer = waiting })
  | waiting ↦ none
  | woken ↦
      if ltb 5 s.global_count
      then some (record s { consumer = waiting })
      else some (record s { global_count = s.global_count + 1; consumer = counted })
  | counted ↦ some (record s {
    workers = s.workers ++ record { x = s.queue s.out; booked = false } ∷ [];
    out = (s.out + 1) % 10;
    consumer = taken;
  })
  | taken ↦ some (record s { ps = s.ps + 1; consumer = idle })
]

-- `MIN`
abbrev pub min_int : ℤ → ℤ → ℤ
min_int (pos m) (pos n) = if ltb m n then pos m else pos n
min_int (pos m) (negsuc n) = negsuc n
min_int (negsuc m) (pos n) = negsuc m
min_int (negsuc m) (negsuc n) = if ltb n m then negsuc m else negsuc n

-- The ticket after a request.
abbrev pub book : (ticket x : ℤ) → ℤ
book ticket x = if is_negative (ticket -ℤ x) then ticket else min_int (ticket -ℤ x) (pos 100)

abbrev pub without : ℕ → List Worker → List Worker
without i [] = []
without zero (w ∷ ws) = ws
without (suc i) (w ∷ ws) = w ∷ without i ws

-- `pthread_cond_signal`: the main thread is woken if it waits.
abbrev pub signal : Consumer → Consumer
signal idle = idle
signal counting = counting
signal waiting = woken
signal woken = woken
signal counted = counted
signal taken = taken

-- A step of the thread at place `i`: it books, or it is done, counts itself out and signals if at most 5 are left.
unfoldable pub worker_step : ℕ → System → Option System
worker_step i s = do
  w ← get_elem? s.workers i
  if w.booked
      then some (record s {
        global_count = s.global_count - 1;
        consumer = if leb (s.global_count - 1) 5 then signal s.consumer else s.consumer;
        workers = without i s.workers;
      })
      else some (record s {
        ticket = book s.ticket w.x;
        workers = set s.workers i (record w { booked = true });
      })
