-- ===== src/Scheduler/Next.antt =====
-- `next_thread_to_run`: the order in which the queues are served, and what is known of the thread
-- that is taken.
use linux_programming.Prelude.{ℕ, List, [], ◌∷◌, ◌≡◌, ◌≢◌, inr, Absent, refl, some, true}
use linux_programming.Scheduler.{Thread, Kernel, dying, pick, next_thread_to_run}
use linux_programming.Scheduler.Invariant.{Memory, IsCount, IsQueues, Queued-Absent}

-- The thread that `next_thread_to_run` takes, and the queues that it leaves.
pub record IsNext (m : Memory) (idle next : ℕ) (hs ls : List ℕ) : Type 0 where
  pub found : (t : Thread) × (m next ≡ some t) × (t.status ≢ dying) × IsCount t.count
  pub rest : IsQueues m hs ls idle
  pub not_high : Absent next hs
  pub not_low : Absent next ls

-- The order in which the queues are served.
abbrev pub next_of : List ℕ → List ℕ → ℕ → ℕ × List ℕ × List ℕ
next_of (p ∷ hs) ls idle = (p, hs, ls)
next_of [] (p ∷ ls) idle = (p, [], ls)
next_of [] [] idle = (idle, [], [])

pub next_of-IsNext :
    (m : Memory) (idle : ℕ) (hs ls : List ℕ)
    → IsQueues m hs ls idle
    → let (p, hs', ls') = next_of hs ls idle in IsNext m idle p hs' ls'
next_of-IsNext m idle [] [] q = record { found = q.idle; rest = q; not_high = tt; not_low = tt }
next_of-IsNext m idle [] (p ∷ ls) q = record {
  found = let (t, e, r, n, c) = q.low.0 in (t, e, (λ d. cc), c);
  rest = record {
    high = tt;
    low = q.low.1;
    distinct_high = tt;
    distinct_low = q.distinct_low.1;
    idle = q.idle;
  };
  not_high = tt;
  not_low = q.distinct_low.0;
}
next_of-IsNext m idle (p ∷ hs) ls q = record {
  found = let (t, e, r, n, c) = q.high.0 in (t, e, (λ d. cc), c);
  rest = record {
    high = q.high.1;
    low = q.low;
    distinct_high = q.distinct_high.1;
    distinct_low = q.distinct_low;
    idle = q.idle;
  };
  not_high = q.distinct_high.0;
  not_low = let (t, e, r, n, c) = q.high.0 in Queued-Absent m true p t ls e (inr n) q.low;
}

pub pick-next_of :
    (k : Kernel) (hs ls : List ℕ)
    → k.ready_list ≡ hs
    → k.ready_list_low ≡ ls
    → pick hs ls k ≡ (
        let (p, hs', ls') = next_of hs ls k.idle_thread in
        (p, record k { ready_list = hs'; ready_list_low = ls' }))
pick-next_of k [] [] eh el = cc
pick-next_of k [] (p ∷ ls) eh el = cc
pick-next_of k (p ∷ hs) ls eh el = cc

-- What `next_thread_to_run` returns, and the kernel that it leaves.
pub next_thread_to_run_lem :
    (k : Kernel)
    → next_thread_to_run k ≡ (
        let (p, hs, ls) = next_of k.ready_list k.ready_list_low k.idle_thread in
        (p, record k { ready_list = hs; ready_list_low = ls }))
unfolding next_thread_to_run
next_thread_to_run_lem k = pick-next_of k k.ready_list k.ready_list_low refl refl
