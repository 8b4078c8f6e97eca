-- ===== src/Scheduler/Invariant.antt =====
-- What holds of the queues between two calls of thread.c, and how a write to one thread's structure
-- leaves the queues that it does not stand in alone.
use linux_programming.Prelude.{
  ℕ, ◌≤◌, ◌<◌, Bool, true, false, not, Option, some, List, [], ◌∷◌, ◌≡◌, ◌≢◌, ◌⊎◌, arith, All,
  Absent, Distinct, All-append, Distinct-push, ◌++◌, none, inl, inr, ◌==◌, Bool-cases,
}
use linux_programming.Prelude.Store.{update, update_self}
use linux_programming.Prelude.Int8.{negative}
use linux_programming.Scheduler.{Thread, Kernel, running, ready, dying}

abbrev pub Memory : Type 0
Memory = ℕ → Option Thread

-- The values of `count`: 0 and 1 in the high queue, -1 to -24 in the low one.
abbrev pub IsCount : ℕ → Type 0
IsCount c = (c ≤ 1) ⊎ ((232 ≤ c) × (c < 256))

-- A thread waits in the queue for `low`: it is ready, and its count says so.
abbrev pub Queued : Memory → Bool → ℕ → Type 0
Queued m low p =
    (t : Thread) × (m p ≡ some t) × (t.status ≡ ready) × (negative t.count ≡ low) × IsCount t.count

-- The queues, and the idle thread that stands in when they are empty.
pub record IsQueues (m : Memory) (hs ls : List ℕ) (idle_thread : ℕ) : Type 0 where
  pub high : All (Queued m false) hs
  pub low : All (Queued m true) ls
  pub distinct_high : Distinct hs
  pub distinct_low : Distinct ls
  pub idle : (t : Thread) × (m idle_thread ≡ some t) × (t.status ≢ dying) × IsCount t.count

abbrev pub InOrder : Kernel → Type 0
InOrder k = IsQueues k.mem k.ready_list k.ready_list_low k.idle_thread

-- A thread runs, with the queues in order.
pub record IsValid (k : Kernel) : Type 0 where
  pub queues : InOrder k
  pub current : (t : Thread) × (k.mem k.current ≡ some t) × (t.status ≡ running) × IsCount t.count

-- A thread that is not ready, or whose count puts it in the other queue, is not in this one.
pub Queued-Absent :
    (m : Memory) (low : Bool) (p : ℕ) (t : Thread) (ps : List ℕ)
    → m p ≡ some t
    → (t.status ≢ ready) ⊎ (negative t.count ≡ not low)
    → All (Queued m low) ps
    → Absent p ps
Queued-Absent m low p t [] e why h = tt
Queued-Absent m low p t (q ∷ ps) e why h =
    ((λ same. ground arith), Queued-Absent m low p t ps e why h.1)

-- No thread stands at a page that holds none.
pub empty-Absent :
    (m : Memory) (low : Bool) (p : ℕ) (ps : List ℕ)
    → m p ≡ none
    → All (Queued m low) ps
    → Absent p ps
empty-Absent m low p [] e h = tt
empty-Absent m low p (q ∷ ps) e h = ((λ same. ground arith), empty-Absent m low p ps e h.1)

-- A write to the structure of a thread that is not in the queue.
pub Queued-update :
    (m : Memory) (low : Bool) (p : ℕ) (v : Option Thread) (ps : List ℕ)
    → Absent p ps
    → All (Queued m low) ps
    → All (Queued (update m p v) low) ps
Queued-update m low p v [] a h = tt
Queued-update m low p v (q ∷ ps) a h =
    ((h.0.0, ground arith, h.0.2, h.0.3, h.0.4), Queued-update m low p v ps a.1 h.1)

module _ (m : Memory) (hs ls : List ℕ) (idle : ℕ) (q : IsQueues m hs ls idle) (p : ℕ) where
  -- The structure of `p` is written, and `p` is in neither queue.
  pub update-IsQueues :
      (t : Thread)
      → Absent p hs
      → Absent p ls
      → t.status ≢ dying
      → IsCount t.count
      → IsQueues (update m p (some t)) hs ls idle
  update-IsQueues t ah al alive count = record {
    high = Queued-update m false p (some t) hs ah q.high;
    low = Queued-update m true p (some t) ls al q.low;
    distinct_high = q.distinct_high;
    distinct_low = q.distinct_low;
    idle = elim (Bool-cases (p == idle)) [
      | inl e ↦ (t, ground arith, alive, count)
      | inr e ↦ (q.idle.0, ground arith, q.idle.2, q.idle.3)
    ];
  }

  -- Another structure than the idle thread's is written or given back.
  pub write-IsQueues :
      (v : Option Thread)
      → Absent p hs
      → Absent p ls
      → p ≢ idle
      → IsQueues (update m p v) hs ls idle
  write-IsQueues v ah al other = record {
    high = Queued-update m false p v hs ah q.high;
    low = Queued-update m true p v ls al q.low;
    distinct_high = q.distinct_high;
    distinct_low = q.distinct_low;
    idle = (q.idle.0, ground arith, q.idle.2, q.idle.3);
  }

  -- The page of a dying thread is given back.
  pub free-IsQueues :
      (t : Thread) → m p ≡ some t → t.status ≡ dying → IsQueues (update m p none) hs ls idle
  free-IsQueues t e d =
      write-IsQueues none (Queued-Absent m false p t hs e (inl (ground arith)) q.high)
        (Queued-Absent m true p t ls e (inl (ground arith)) q.low) (λ same. ground arith)

module _ (m : Memory) (hs ls : List ℕ) (idle : ℕ) (q : IsQueues m hs ls idle) (p : ℕ) where
  -- Only a ready thread is in a queue.
  pub not_ready-Absent : (t : Thread) → m p ≡ some t → t.status ≢ ready → Absent p hs × Absent p ls
  not_ready-Absent t e r =
      (Queued-Absent m false p t hs e (inl r) q.high, Queued-Absent m true p t ls e (inl r) q.low)

  -- A thread in neither queue becomes ready at the end of the one that its count names.
  pub push_high-IsQueues :
      (t : Thread)
      → Absent p hs
      → Absent p ls
      → t.status ≡ ready
      → negative t.count ≡ false
      → IsCount t.count
      → IsQueues (update m p (some t)) (hs ++ p ∷ []) ls idle
  push_high-IsQueues t ah al r n c =
      let u = update-IsQueues m hs ls idle q p t ah al (λ d. ground arith) c in
      record {
        high =
            All-append (Queued (update m p (some t)) false) hs (p ∷ []) u.high
              ((t, update_self m p (some t), r, n, c), tt);
        low = u.low;
        distinct_high = Distinct-push p hs q.distinct_high ah;
        distinct_low = q.distinct_low;
        idle = u.idle;
      }

  pub push_low-IsQueues :
      (t : Thread)
      → Absent p hs
      → Absent p ls
      → t.status ≡ ready
      → negative t.count ≡ true
      → IsCount t.count
      → IsQueues (update m p (some t)) hs (ls ++ p ∷ []) idle
  push_low-IsQueues t ah al r n c =
      let u = update-IsQueues m hs ls idle q p t ah al (λ d. ground arith) c in
      record {
        high = u.high;
        low =
            All-append (Queued (update m p (some t)) true) ls (p ∷ []) u.low
              ((t, update_self m p (some t), r, n, c), tt);
        distinct_high = q.distinct_high;
        distinct_low = Distinct-push p ls q.distinct_low al;
        idle = u.idle;
      }
