-- ===== src/Booking/Runs.antt =====
-- The runs of client and server, step by step, with the requests that A has sent and that B has read.
use mathlib.Core.List.{append_assoc}
use linux_programming.Prelude.{
  ℕ, ◌+◌, ◌≤◌, ◌<◌, false, Option, none, some, List, [], ◌∷◌, ◌++◌, ◌≡◌, ◌≢◌, ◌⊎◌, inl, inr, refl,
  sym, subst, ◌∙◌, ap, arith, get_elem?, length, ltb, ◌==◌, Bool-cases, Option-cases,
}
use linux_programming.Prelude.Int.{ℤ}
use linux_programming.Booking.{
  Producer, Consumer, Worker, System, start, producer_step, consumer_step, worker_step, asking,
  in_slot, written, idle, counting, waiting, woken, counted, taken,
}
use linux_programming.Booking.Invariant.{
  Inv, Keeps, held, reading, emptied, ahead, filled, Expects, wakes-Inv, start-Inv,
  producer_step-Inv, consumer_step-Inv, worker_step-Inv,
}
use linux_programming.Booking.Queue.{
  contents, requests, sends, reads, producer_step-requests, consumer_step-requests,
  worker_step-requests, length-requests,
}

-- A run to a state, by any interleaving, in which A has sent `sent` and B has read `received`. A wait may also end
-- without a signal, as `pthread_cond_wait` allows.
pub data Run : (sent received : List ℤ) → System → Type 0 where
  begin : (queue : ℕ → ℤ) → Run [] [] (start queue)
  produces :
      (a b : List ℤ) (s s' : System) (rand : ℕ)
      → Run a b s
      → producer_step rand s ≡ some s'
      → Run (a ++ sends rand s) b s'
  consumes :
      (a b : List ℤ) (s s' : System)
      → Run a b s
      → consumer_step s ≡ some s'
      → Run a (b ++ reads s) s'
  serves :
      (a b : List ℤ) (s s' : System) (i : ℕ) → Run a b s → worker_step i s ≡ some s' → Run a b s'
  wakes :
      (a b : List ℤ) (s : System)
      → Run a b s
      → s.consumer ≡ waiting
      → Run a b (record s { consumer = woken })

kept : (P : System → Type 0) (m : Option System) (s : System) → m ≡ some s → Keeps P m → P s
kept P m s e h = subst (Keeps P) e h

-- Throughout a run, the semaphores and the slots in use add up to 10, A writes just behind the requests
-- that wait, `global_count` is the number of threads, with the one that is about to be created, and at most
-- 10, and there are between 0 and 100 tickets.
pub Run-Inv : (a b : List ℤ) (s : System) → Run a b s → Inv s
Run-Inv a b s (begin queue) = start-Inv queue
Run-Inv a b s (produces a' b' s₁ s' rand run e) =
    kept Inv (producer_step rand s₁) s e (producer_step-Inv rand s₁ (Run-Inv _ _ s₁ run))
Run-Inv a b s (consumes a' b' s₁ s' run e) =
    kept Inv (consumer_step s₁) s e (consumer_step-Inv s₁ (Run-Inv _ _ s₁ run))
Run-Inv a b s (serves a' b' s₁ s' i run e) =
    kept Inv (worker_step i s₁) s e (worker_step-Inv i s₁ (Run-Inv _ _ s₁ run))
Run-Inv a b s (wakes a' b' s₁ run e) = wakes-Inv s₁ (Run-Inv _ _ s₁ run) e

-- Throughout a run, the requests that A has sent are those that B has read, in the same order, followed by
-- those in the queue, which are at most 10.
pub Run-requests :
    (a b : List ℤ) (s : System) → Run a b s → (a ≡ b ++ requests s) × (length (requests s) ≤ 10)
Run-requests a b s run = (order a b s run, length-requests s (Run-Inv a b s run))
  where
    order : (a b : List ℤ) (s : System) → Run a b s → a ≡ b ++ requests s
    order a b s (begin queue) = refl
    order a b s (produces a' b' s₁ s' rand run e) =
        let step =
          kept _ (producer_step rand s₁) s e
            (producer_step-requests rand s₁ (Run-Inv _ _ s₁ run)) in
        ap (λ (l : List ℤ). l ++ sends rand s₁) (order a' b' s₁ run)
        ∙ append_assoc b' (requests s₁) (sends rand s₁)
        ∙ ap (λ (l : List ℤ). b' ++ l) (sym step)
    order a b s (consumes a' b' s₁ s' run e) =
        let step = kept _ (consumer_step s₁) s e (consumer_step-requests s₁ (Run-Inv _ _ s₁ run)) in
        order a' b' s₁ run
        ∙ ap (λ (l : List ℤ). b' ++ l) step
        ∙ sym (append_assoc b' (reads s₁) (requests s))
    order a b s (serves a' b' s₁ s' i run e) =
        let step = kept _ (worker_step i s₁) s e (worker_step-requests i s₁) in
        order a' b' s₁ run ∙ ap (λ (l : List ℤ). b' ++ l) (sym step)
    order a b s (wakes a' b' s₁ run e) =
        order a' b' s₁ run
        ∙ ap (λ (x : ℕ). b' ++ contents s₁.queue s₁.out (s₁.cs + x + filled s₁.producer))
            (ap reading e)

-- Some process can go on: A, or the main thread of B to another place, or the first thread of B.
abbrev pub Moves : ℕ → System → Type 0
Moves rand s =
    ((s' : System) × (producer_step rand s ≡ some s'))
    ⊎ (((s' : System) × (consumer_step s ≡ some s') × (s'.consumer ≢ s.consumer))
        ⊎ ((s' : System) × (worker_step 0 s ≡ some s')))

module _ (rand : ℕ) (s : System) (h : Inv s) where
  none_left : (l : List Worker) → get_elem? l 0 ≡ none → 0 < length l → ⊥
  none_left [] e some_left = omega arith
  none_left (w ∷ ws) e some_left = cc

  first_worker : 0 < length s.workers → (s' : System) × (worker_step 0 s ≡ some s')
  unfolding worker_step
  first_worker some_left = elim (Option-cases (get_elem? s.workers 0)) [
    | inl e ↦ absurd (none_left s.workers e some_left)
    | inr (w, e) ↦
        rw e (elim (Bool-cases w.booked) [ inl f ↦ rw f (_, refl) | inr f ↦ rw f (_, refl) ])
  ]

  consumer_goes : s.ps ≡ 0 → s.producer ≡ asking → (pc : Consumer) → s.consumer ≡ pc → Moves rand s
  unfolding consumer_step
  consumer_goes empty ask idle e =
      let (a, b, c) : (held s.producer ≡ 0) × (reading s.consumer ≡ 0) × (emptied s.consumer ≡ 0) =
        (ap held ask, ap reading e, ap emptied e) in
      let full : s.cs ≢ 0 = λ z. let f = h.slots in omega arith in
      let more : (s.cs == 0) ≡ false = ground (arith, full) in
      inr (inl (rw (e, more) (_, refl, (λ q. cc))))
  consumer_goes empty ask counting e = elim (Bool-cases (ltb s.global_count 10)) [
    | inl z ↦ inr (inl (rw (e, z) (_, refl, (λ q. cc))))
    | inr z ↦ inr (inl (rw (e, z) (_, refl, (λ q. cc))))
  ]
  consumer_goes empty ask waiting e =
      let many : 5 < s.global_count = subst (Expects s.global_count) e h.expects in
      let a : ahead s.consumer ≡ 0 = ap ahead e in
      inr (inr (first_worker (let f = h.count in omega arith)))
  consumer_goes empty ask woken e = elim (Bool-cases (ltb 5 s.global_count)) [
    | inl z ↦ inr (inl (rw (e, z) (_, refl, (λ q. cc))))
    | inr z ↦ inr (inl (rw (e, z) (_, refl, (λ q. cc))))
  ]
  consumer_goes empty ask counted e = inr (inl (rw e (_, refl, (λ q. cc))))
  consumer_goes empty ask taken e = inr (inl (rw e (_, refl, (λ q. cc))))

  goes : (pc : Producer) → s.producer ≡ pc → Moves rand s
  unfolding producer_step
  goes asking e = elim (Bool-cases (s.ps == 0)) [
    | inl z ↦ consumer_goes (ground (arith, z)) e s.consumer refl
    | inr z ↦ inl (rw (e, z) (_, refl))
  ]
  goes in_slot e = inl (rw e (_, refl))
  goes written e = inl (rw e (_, refl))

-- A run never deadlocks, also where no wait ends without a signal: from every state of it A can make a step, or
-- the main thread of B one to another place, or the first thread of B one. In `pthread_cond_wait` the main thread
-- makes none.
pub Run-Moves : (rand : ℕ) (a b : List ℤ) (s : System) → Run a b s → Moves rand s
Run-Moves rand a b s run = goes rand s (Run-Inv a b s run) s.producer refl
