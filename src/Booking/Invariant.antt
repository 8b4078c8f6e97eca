-- ===== src/Booking/Invariant.antt =====
-- What holds whenever client and server run: the slots of the queue, the count of the threads, the ticket.
use linux_programming.Prelude.{
  ℕ, zero, suc, ◌+◌, ◌-◌, ◌%◌, ◌≤◌, ◌<◌, true, false, Option, none, some, List, [], ◌∷◌, ◌≡◌, ◌≢◌,
  ◌⊎◌, inl, inr, refl, sym, ◌∙◌, ap, arith, get_elem?, set, length, length-append, ltb, leb,
  if◌then◌else◌, ◌==◌, Bool-cases, Option-cases,
}
use linux_programming.Prelude.Int.{ℤ, pos, negsuc}
use linux_programming.Booking.{
  Producer, Consumer, Worker, System, start, book, without, producer_step, consumer_step,
  worker_step, signal, asking, in_slot, written, idle, counting, waiting, woken, counted, taken,
}

-- The slot that A has taken and not yet handed over, whether it is filled, the slot that B has taken and
-- not yet emptied, the one it has emptied, and the request that it has counted and not yet given a thread.
abbrev pub held : Producer → ℕ
held asking = 0
held in_slot = 1
held written = 1

abbrev pub filled : Producer → ℕ
filled asking = 0
filled in_slot = 0
filled written = 1

abbrev pub reading : Consumer → ℕ
reading idle = 0
reading counting = 1
reading waiting = 1
reading woken = 1
reading counted = 1
reading taken = 0

abbrev pub emptied : Consumer → ℕ
emptied idle = 0
emptied counting = 0
emptied waiting = 0
emptied woken = 0
emptied counted = 0
emptied taken = 1

abbrev pub ahead : Consumer → ℕ
ahead idle = 0
ahead counting = 0
ahead waiting = 0
ahead woken = 0
ahead counted = 1
ahead taken = 0

-- The requests that were handed over and not yet read.
abbrev pub waiting_requests : System → ℕ
waiting_requests s = s.cs + reading s.consumer

-- The main thread only waits for a signal while more than 5 threads are left, so that one is still to come.
abbrev pub Expects : (count : ℕ) → Consumer → Type 0
Expects count idle = Unit
Expects count counting = Unit
Expects count waiting = 5 < count
Expects count woken = Unit
Expects count counted = Unit
Expects count taken = Unit

pub record Inv (s : System) : Type 0 where
  pub slots : s.ps + held s.producer + waiting_requests s + emptied s.consumer ≡ 10
  pub place : s.inp ≡ (s.out + waiting_requests s + filled s.producer) % 10
  pub out_small : s.out < 10
  pub count : s.global_count ≡ length s.workers + ahead s.consumer
  pub count_small : s.global_count ≤ 10
  pub expects : Expects s.global_count s.consumer
  pub tickets : (n : ℕ) × (s.ticket ≡ pos n) × (n ≤ 100)

-- The step is blocked, or leads to a state of which `P` holds.
abbrev pub Keeps : (System → Type 0) → Option System → Type 0
Keeps P none = Unit
Keeps P (some s) = P s

module _ (s : System) (h : Inv s) where
  producer_at : (rand : ℕ) (pc : Producer) → s.producer ≡ pc → Keeps Inv (producer_step rand s)
  unfolding producer_step
  producer_at rand asking e =
      let (a, b) : (held s.producer ≡ 0) × (filled s.producer ≡ 0) = (ap held e, ap filled e) in
      rw e (elim (Bool-cases (s.ps == 0)) [
        | inl z ↦ rw z tt
        | inr z ↦
            let some_left : s.ps ≢ 0 = ground (arith, z) in
            rw z (record {
              slots = let f = h.slots in omega arith;
              place = h.place ∙ ap (λ (x : ℕ). (s.out + waiting_requests s + x) % 10) b;
              out_small = h.out_small;
              count = h.count;
              count_small = h.count_small;
              expects = h.expects;
              tickets = h.tickets;
            })
      ])
  producer_at rand in_slot e =
      let (a, b) : (held s.producer ≡ 1) × (filled s.producer ≡ 0) = (ap held e, ap filled e) in
      rw e (record {
        slots = let f = h.slots in omega arith;
        place = let f = h.place in omega arith;
        out_small = h.out_small;
        count = h.count;
        count_small = h.count_small;
        expects = h.expects;
        tickets = h.tickets;
      })
  producer_at rand written e =
      let (a, b) : (held s.producer ≡ 1) × (filled s.producer ≡ 1) = (ap held e, ap filled e) in
      rw e (record {
        slots = let f = h.slots in omega arith;
        place = let f = h.place in omega arith;
        out_small = h.out_small;
        count = h.count;
        count_small = h.count_small;
        expects = h.expects;
        tickets = h.tickets;
      })

  -- A step of the consumer that moves only `cs`, `ps`, `consumer` and the count.
  moves :
      (cs ps g : ℕ) (c : Consumer)
      → cs + reading c ≡ waiting_requests s
      → ps + emptied c ≡ s.ps + emptied s.consumer
      → g + ahead s.consumer ≡ s.global_count + ahead c
      → g ≤ 10
      → Expects g c
      → Inv (record s { cs = cs; ps = ps; global_count = g; consumer = c })
  moves cs ps g c a b d small expected = record {
    slots = let f = h.slots in omega arith;
    place = h.place ∙ ap (λ (x : ℕ). (s.out + x + filled s.producer) % 10) (sym a);
    out_small = h.out_small;
    count = let f = h.count in omega arith;
    count_small = small;
    expects = expected;
    tickets = h.tickets;
  }

  consumer_at : (pc : Consumer) → s.consumer ≡ pc → Keeps Inv (consumer_step s)
  unfolding consumer_step
  consumer_at pc e =
      let (a, b, c) : (reading s.consumer ≡ reading pc)
          × (emptied s.consumer ≡ emptied pc)
          × (ahead s.consumer ≡ ahead pc) =
        (ap reading e, ap emptied e, ap ahead e) in
      go pc e a b c
    where
      go :
          (pc : Consumer)
          → s.consumer ≡ pc
          → reading s.consumer ≡ reading pc
          → emptied s.consumer ≡ emptied pc
          → ahead s.consumer ≡ ahead pc
          → Keeps Inv (consumer_step s)
      go idle e a b c = rw e (elim (Bool-cases (s.cs == 0)) [
        | inl z ↦ rw z tt
        | inr z ↦
            let some_left : s.cs ≢ 0 = ground (arith, z) in
            rw z (
              moves (s.cs - 1) s.ps s.global_count counting (omega arith) (omega arith)
                (omega arith) h.count_small tt)
      ])
      go counting e a b c = rw e (elim (Bool-cases (ltb s.global_count 10)) [
        | inl z ↦
            let few : s.global_count < 10 = ground (arith, z) in
            rw z (
              moves s.cs s.ps (s.global_count + 1) counted (omega arith) (omega arith) (omega arith)
                (omega arith) tt)
        | inr z ↦
            let many : 5 < s.global_count = ground (arith, z) in
            rw z (
              moves s.cs s.ps s.global_count waiting (omega arith) (omega arith) (omega arith)
                h.count_small many)
      ])
      go waiting e a b c = rw e tt
      go woken e a b c = rw e (elim (Bool-cases (ltb 5 s.global_count)) [
        | inl z ↦
            let many : 5 < s.global_count = ground (arith, z) in
            rw z (
              moves s.cs s.ps s.global_count waiting (omega arith) (omega arith) (omega arith)
                h.count_small many)
        | inr z ↦
            let few : s.global_count ≤ 5 = ground (arith, z) in
            rw z (
              moves s.cs s.ps (s.global_count + 1) counted (omega arith) (omega arith) (omega arith)
                (omega arith) tt)
      ])
      go counted e a b c =
          let longer =
            length-append s.workers (record { x = s.queue s.out; booked = false } ∷ []) in
          rw e (record {
            slots = let f = h.slots in omega arith;
            place = let f = h.place in omega arith;
            out_small = omega arith;
            count = let f = h.count in omega arith;
            count_small = h.count_small;
            expects = tt;
            tickets = h.tickets;
          })
      go taken e a b c = rw e (
          moves s.cs (s.ps + 1) s.global_count idle (omega arith) (omega arith) (omega arith)
            h.count_small tt)

  -- A wait that ends without a signal.
  pub wakes-Inv : s.consumer ≡ waiting → Inv (record s { consumer = woken })
  wakes-Inv e =
      let (a, b, c) : (reading s.consumer ≡ 1) × (emptied s.consumer ≡ 0) × (ahead s.consumer ≡ 0) =
        (ap reading e, ap emptied e, ap ahead e) in
      moves s.cs s.ps s.global_count woken (omega arith) (omega arith) (omega arith) h.count_small
        tt

-- Where the main thread is after the last section of a thread, with `n` threads left.
abbrev pub left : ℕ → Consumer → Consumer
left n c = if leb n 5 then signal c else c

pub left_lem :
    (n : ℕ) (c : Consumer)
    → (reading (left n c) ≡ reading c)
      × (emptied (left n c) ≡ emptied c)
      × (ahead (left n c) ≡ ahead c)
      × Expects n (left n c)
left_lem n c = elim (Bool-cases (leb n 5)) [
  | inl e ↦ rw e (few c)
  | inr e ↦ rw e (many (ground (arith, e)) c)
]
  where
    few :
        (c : Consumer)
        → (reading (signal c) ≡ reading c)
          × (emptied (signal c) ≡ emptied c)
          × (ahead (signal c) ≡ ahead c)
          × Expects n (signal c)
    few idle = (refl, refl, refl, tt)
    few counting = (refl, refl, refl, tt)
    few waiting = (refl, refl, refl, tt)
    few woken = (refl, refl, refl, tt)
    few counted = (refl, refl, refl, tt)
    few taken = (refl, refl, refl, tt)

    many :
        5 < n
        → (c : Consumer)
        → (reading c ≡ reading c) × (emptied c ≡ emptied c) × (ahead c ≡ ahead c) × Expects n c
    many h idle = (refl, refl, refl, tt)
    many h counting = (refl, refl, refl, tt)
    many h waiting = (refl, refl, refl, h)
    many h woken = (refl, refl, refl, tt)
    many h counted = (refl, refl, refl, tt)
    many h taken = (refl, refl, refl, tt)

length-without :
    (i : ℕ) (l : List Worker) (w : Worker)
    → get_elem? l i ≡ some w
    → length l ≡ length (without i l) + 1
length-without i [] w h = cc
length-without zero (x ∷ xs) w h = omega arith
length-without (suc i) (x ∷ xs) w h = let e = length-without i xs w h in omega arith

length-set : (i : ℕ) (l : List Worker) (w : Worker) → length (set l i w) ≡ length l
length-set i [] w = refl
length-set zero (x ∷ xs) w = refl
length-set (suc i) (x ∷ xs) w = let e = length-set i xs w in omega arith

-- A request leaves between 0 and 100 tickets.
book_lem : (n : ℕ) (x : ℤ) → n ≤ 100 → (m : ℕ) × (book (pos n) x ≡ pos m) × (m ≤ 100)
book_lem n (pos m) h = elim (Bool-cases (ltb n m)) [
  | inl e ↦ rw e (n, refl, h)
  | inr e ↦
      let small : ltb (n - m) 100 ≡ true ⊎ n - m ≡ 100 = ground (arith, h) in
      rw e (n - m, ground (arith, h), omega arith)
]
book_lem n (negsuc m) h = elim (Bool-cases (ltb (n + m + 1) 100)) [
  | inl e ↦ rw e (n + m + 1, refl, ground (arith, e))
  | inr e ↦ rw e (100, refl, omega arith)
]

pub worker_step-Inv : (i : ℕ) (s : System) → Inv s → Keeps Inv (worker_step i s)
unfolding worker_step
worker_step-Inv i s h = elim (Option-cases (get_elem? s.workers i)) [
  | inl e ↦ rw e tt
  | inr (w, e) ↦ rw e (elim (Bool-cases w.booked) [
    | inl f ↦
        let shorter = length-without i s.workers w e in
        let (a, b, c, expected) = left_lem (s.global_count - 1) s.consumer in
        rw f (record {
          slots = let g = h.slots in omega arith;
          place = h.place ∙ ap (λ (x : ℕ). (s.out + (s.cs + x) + filled s.producer) % 10) (sym a);
          out_small = h.out_small;
          count = let g = h.count in omega arith;
          count_small = let g = h.count_small in omega arith;
          expects = expected;
          tickets = h.tickets;
        })
    | inr f ↦
        let (n, at, small) = h.tickets in
        let (m, left, few) = book_lem n w.x small in
        rw f (record {
          slots = h.slots;
          place = h.place;
          out_small = h.out_small;
          count = rw (length-set i s.workers (record w { booked = true })) h.count;
          count_small = h.count_small;
          expects = h.expects;
          tickets = (m, ap (λ (z : ℤ). book z w.x) at ∙ left, few);
        })
  ])
]

pub producer_step-Inv : (rand : ℕ) (s : System) → Inv s → Keeps Inv (producer_step rand s)
producer_step-Inv rand s h = producer_at s h rand s.producer refl

pub consumer_step-Inv : (s : System) → Inv s → Keeps Inv (consumer_step s)
consumer_step-Inv s h = consumer_at s h s.consumer refl

pub start-Inv : (queue : ℕ → ℤ) → Inv (start queue)
start-Inv queue = record {
  slots = refl;
  place = refl;
  out_small = omega arith;
  count = refl;
  count_small = omega arith;
  expects = tt;
  tickets = (100, refl, omega arith);
}
