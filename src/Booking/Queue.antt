-- ===== src/Booking/Queue.antt =====
-- The shared queue as a list of requests, the next one first.
use mathlib.Core.List.{append-nil}
use linux_programming.Prelude.{
  ℕ, zero, suc, ◌+◌, ◌-◌, ◌%◌, ◌≤◌, ◌<◌, true, false, List, [], ◌∷◌, ◌++◌, ◌≡◌, ◌≢◌, inl, inr, refl,
  sym, ◌∙◌, ap, arith, get_elem?, length, ltb, ◌==◌, if◌then◌else◌, Bool-cases, Option-cases,
}
use linux_programming.Prelude.Int.{ℤ, pos, ◌-ℤ◌}
use linux_programming.Booking.{
  Producer, Consumer, System, producer_step, consumer_step, worker_step, asking, in_slot, written,
  idle, counting, waiting, woken, counted, taken,
}
use linux_programming.Booking.Invariant.{
  Inv, Keeps, waiting_requests, filled, held, reading, left_lem,
}

abbrev pub contents : (queue : ℕ → ℤ) (out n : ℕ) → List ℤ
contents queue out zero = []
contents queue out (suc n) = queue out ∷ contents queue ((out + 1) % 10) n

-- The requests that A has written and B has not read.
abbrev pub requests : System → List ℤ
requests s = contents s.queue s.out (waiting_requests s + filled s.producer)

-- What a step of A adds, and what a step of B takes away.
abbrev pub sends : ℕ → System → List ℤ
sends rand s = elim s.producer [
  | asking ↦ []
  | in_slot ↦ (pos (rand % 11) -ℤ pos 5) ∷ []
  | written ↦ []
]

abbrev pub reads : System → List ℤ
reads s = elim s.consumer [
  | idle ↦ []
  | counting ↦ []
  | waiting ↦ []
  | woken ↦ []
  | counted ↦ s.queue s.out ∷ []
  | taken ↦ []
]

length-contents : (queue : ℕ → ℤ) (out n : ℕ) → length (contents queue out n) ≡ n
length-contents queue out zero = refl
length-contents queue out (suc n) = let e = length-contents queue ((out + 1) % 10) n in omega arith

-- A write just behind the contents.
contents-write :
    (queue : ℕ → ℤ) (v : ℤ) (n out i : ℕ)
    → n < 10
    → out < 10
    → i ≡ (out + n) % 10
    → contents (λ j. if j == i then v else queue j) out (suc n) ≡ contents queue out n ++ v ∷ []
contents-write queue v zero out i hn ho e =
    let same : (out == i) ≡ true = ground (arith, e, ho) in rw same
contents-write queue v (suc n) out i hn ho e =
    let ne : out ≢ i = λ same. omega arith in
    let differ : (out == i) ≡ false = ground (arith, ne) in
    rw differ (
      ap (λ (l : List ℤ). queue out ∷ l)
        (contents-write queue v n ((out + 1) % 10) i (omega arith) (omega arith) (omega arith)))

module _ (s : System) (h : Inv s) where
  -- What a step of A does to the requests.
  producer_at :
      (rand : ℕ) (pc : Producer)
      → s.producer ≡ pc
      → Keeps (λ s'. requests s' ≡ requests s ++ sends rand s) (producer_step rand s)
  unfolding producer_step
  producer_at rand asking e = rw e (elim (Bool-cases (s.ps == 0)) [
    | inl z ↦ rw z tt
    | inr z ↦ rw z (sym (append-nil (contents s.queue s.out (waiting_requests s + 0))))
  ])
  producer_at rand in_slot e =
      let (a, b) : (held s.producer ≡ 1) × (filled s.producer ≡ 0) = (ap held e, ap filled e) in
      let v = pos (rand % 11) -ℤ pos 5 in
      let w = waiting_requests s in
      let room : w < 10 = let f = h.slots in omega arith in
      let slot : s.inp ≡ (s.out + w) % 10 = let f = h.place in omega arith in
      rw e (
        ap (λ (n : ℕ). contents (λ j. if j == s.inp then v else s.queue j) s.out n) {x = w + 1}
          {y = suc w} (omega arith)
        ∙ contents-write s.queue v w s.out s.inp room h.out_small slot
        ∙ ap (λ (n : ℕ). contents s.queue s.out n ++ v ∷ []) {x = w} {y = w + 0} (omega arith))
  producer_at rand written e =
      let w = waiting_requests s in
      rw e (
        ap (λ (n : ℕ). contents s.queue s.out n) {x = s.cs + 1 + reading s.consumer + 0} {y = w + 1}
          (omega arith)
        ∙ sym (append-nil (contents s.queue s.out (w + 1))))

  -- What a step of B does to the requests.
  consumer_at :
      (pc : Consumer)
      → s.consumer ≡ pc
      → Keeps (λ s'. requests s ≡ reads s ++ requests s') (consumer_step s)
  unfolding consumer_step
  consumer_at idle e = rw e (elim (Bool-cases (s.cs == 0)) [
    | inl z ↦ rw z tt
    | inr z ↦
        let some_left : s.cs ≢ 0 = ground (arith, z) in
        rw z (
          ap (λ (n : ℕ). contents s.queue s.out n) {x = s.cs + 0 + filled s.producer}
            {y = s.cs - 1 + 1 + filled s.producer} (omega arith))
  ])
  consumer_at counting e =
      rw e (elim (Bool-cases (ltb s.global_count 10)) [ inl z ↦ rw z refl | inr z ↦ rw z refl ])
  consumer_at waiting e = rw e tt
  consumer_at woken e =
      rw e (elim (Bool-cases (ltb 5 s.global_count)) [ inl z ↦ rw z refl | inr z ↦ rw z refl ])
  consumer_at counted e = rw e (
      ap (λ (n : ℕ). contents s.queue s.out n) {x = s.cs + 1 + filled s.producer}
        {y = suc (s.cs + 0 + filled s.producer)} (omega arith))
  consumer_at taken e = rw e refl

pub producer_step-requests :
    (rand : ℕ) (s : System)
    → Inv s
    → Keeps (λ s'. requests s' ≡ requests s ++ sends rand s) (producer_step rand s)
producer_step-requests rand s h = producer_at s h rand s.producer refl

pub consumer_step-requests :
    (s : System) → Inv s → Keeps (λ s'. requests s ≡ reads s ++ requests s') (consumer_step s)
consumer_step-requests s h = consumer_at s h s.consumer refl

pub worker_step-requests :
    (i : ℕ) (s : System) → Keeps (λ s'. requests s' ≡ requests s) (worker_step i s)
unfolding worker_step
worker_step-requests i s = elim (Option-cases (get_elem? s.workers i)) [
  | inl e ↦ rw e tt
  | inr (w, e) ↦ rw e (elim (Bool-cases w.booked) [
    | inl f ↦ rw f (
        ap (λ (x : ℕ). contents s.queue s.out (s.cs + x + filled s.producer))
          (left_lem (s.global_count - 1) s.consumer).0)
    | inr f ↦ rw f refl
  ])
]

-- There are never more requests than slots.
pub length-requests : (s : System) → Inv s → length (requests s) ≤ 10
length-requests s h =
    rw (length-contents s.queue s.out (waiting_requests s + filled s.producer))
      (let f = h.slots in let g = filled_lem s.producer in omega arith)
  where
    filled_lem : (p : Producer) → filled p ≤ held p
    filled_lem asking = omega arith
    filled_lem in_slot = omega arith
    filled_lem written = omega arith
