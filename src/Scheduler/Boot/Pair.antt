-- ===== src/Scheduler/Boot/Pair.antt =====
-- The first two threads of thread.c: one gives the processor to the other, and is woken by it.
use linux_programming.Prelude.{
  ℕ, Bool, false, not, Option, none, some, List, [], ◌∷◌, ◌++◌, ◌≡◌, ◌≢◌, refl, sym, ◌∙◌, ap, arith,
  ◌==◌, ensure, Returns,
}
use linux_programming.Prelude.Store.{update, update_self, update_ne}
use linux_programming.Scheduler.{
  Status, running, ready, blocked, Thread, Kernel, null, thread_current, thread_unblock,
  next_thread_to_run, thread_schedule_tail, switch_to, schedule, thread_block,
}

-- A thread with a count of 0.
abbrev pub fresh : Thread → Status → Thread
fresh x s = record x { status = s; count = 0 }

-- Two threads alone, the one at `a` and the one at `b`, with `c` on the processor and `hs` as the high queue.
pub record Pair (a b : ℕ) (ta tb : Option Thread) (hs : List ℕ) (c : ℕ) (k : Kernel) : Type 0 where
  pub first : k.mem a ≡ ta
  pub second : k.mem b ≡ tb
  pub others : (p : ℕ) → p ≢ a → p ≢ b → k.mem p ≡ none
  pub high : k.ready_list ≡ hs
  pub low : k.ready_list_low ≡ []
  pub current : k.current ≡ c
  pub outside : k.in_handler ≡ false

module _ (a b : ℕ) (real : a ≢ null) (real' : b ≢ null) (apart : a ≢ b) where
  is_real : (a == null) ≡ false
  is_real = ground arith

  is_other : (a == b) ≡ false
  is_other = ground arith

  -- The thread at `a` blocks, and the one at `b` runs.
  pub block-Pair :
      (x y : Thread) (k : Kernel)
      → Pair a b (some (fresh x running)) (some (fresh y ready)) (b ∷ []) a k
      → Returns (thread_block (record k { interrupts = false })) (λ k'.
        Pair a b (some (fresh x blocked)) (some (fresh y running)) [] b k'
        × (k'.idle_thread ≡ k.idle_thread))
  unfolding thread_block thread_current schedule next_thread_to_run switch_to thread_schedule_tail
  block-Pair x y k h =
      let on : ensure (not k.in_handler) ≡ some tt = rw (h.outside) refl in
      let m = update k.mem a (some (fresh x blocked)) in
      let left : m a ≡ some (fresh x blocked) = update_self k.mem a (some (fresh x blocked)) in
      let taken : m b ≡ some (fresh y ready) =
        update_ne k.mem a (some (fresh x blocked)) b (λ e. apart (sym e)) ∙ h.second in
      let stays : update m b (some (fresh y running)) a ≡ some (fresh x blocked) =
        update_ne m b (some (fresh y running)) a apart ∙ left in
      rw (on, h.current, h.first, h.high, h.low, left, taken, is_other, is_real, h.second, stays)
        (
          record {
            first = stays;
            second = update_self m b (some (fresh y running));
            others = λ p na nb.
                update_ne m b (some (fresh y running)) p nb
                ∙ update_ne k.mem a (some (fresh x blocked)) p na
                ∙ h.others p na nb;
            high = refl;
            low = refl;
            current = refl;
            outside = h.outside;
          },
          refl,
        )

  -- A thread that waits is woken by the other one.
  pub unblock-Pair :
      (x y : Thread) (k : Kernel)
      → Pair a b (some (fresh x blocked)) (some (fresh y running)) [] b k
      → Returns (thread_unblock a k) (λ k'.
        Pair a b (some (fresh x ready)) (some (fresh y running)) (a ∷ []) b k'
        × (k'.idle_thread ≡ k.idle_thread))
  unfolding thread_unblock
  unblock-Pair x y k h = rw (h.first) (
    record {
      first = update_self k.mem a (some (fresh x ready));
      second = update_ne k.mem a (some (fresh x ready)) b (λ e. apart (sym e)) ∙ h.second;
      others = λ p na nb. update_ne k.mem a (some (fresh x ready)) p na ∙ h.others p na nb;
      high = ap (λ (l : List ℕ). l ++ a ∷ []) h.high;
      low = h.low;
      current = h.current;
      outside = h.outside;
    },
    refl,
  )

pub swap :
    (a b : ℕ) (ta tb : Option Thread) (hs : List ℕ) (c : ℕ) (k : Kernel)
    → Pair a b ta tb hs c k
    → Pair b a tb ta hs c k
swap a b ta tb hs c k h = record {
  first = h.second;
  second = h.first;
  others = λ p na nb. h.others p nb na;
  high = h.high;
  low = h.low;
  current = h.current;
  outside = h.outside;
}

pub flagged :
    (page q : ℕ) (ta tb : Option Thread) (hs : List ℕ) (c : ℕ) (k : Kernel) (b : Bool) (i : ℕ)
    → Pair page q ta tb hs c k
    → Pair page q ta tb hs c (record k { interrupts = b; idle_thread = i; current = c })
flagged page q ta tb hs c k b i h = record {
  first = h.first;
  second = h.second;
  others = h.others;
  high = h.high;
  low = h.low;
  current = refl;
  outside = h.outside;
}
