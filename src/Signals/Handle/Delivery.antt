-- ===== src/Signals/Handle/Delivery.antt =====
-- `handleSignals`: which pending signals act, and what they do.
use mathlib.Core.List.{append-nil}
use linux_programming.Prelude.{
  ℕ, ◌≤◌, ◌<◌, Bool, true, false, not, ◌&&◌, ◌||◌, Option, none, some, List, [], ◌∷◌, ◌++◌, ◌≡◌,
  refl, sym, ap, arith, inl, inr, ◌==◌, if◌then◌else◌, Bool-cases, Returns, All, ==_iff,
}
use linux_programming.Scheduler.{running, ready, is_blocked}
use linux_programming.Sig
use linux_programming.Sigset.{set_bit, check_bit}
use linux_programming.Sigset.Bits.{set_bit_lem}
use linux_programming.Signals.{Thread, Kernel, thread_unblock}
use linux_programming.Signals.SigList.{Pending}
use linux_programming.Signals.Handle.{Walk, keep, wake, take_signal}

-- A thread that SIG_UBLOCK acts on: the signal is not masked, and has its default handler.
abbrev pub wakeable : Thread → Bool
wakeable t = not (check_bit t.sigmask Sig.ublock) && check_bit t.sigign Sig.ublock

abbrev pub is_wakeable : Option Thread → Bool
is_wakeable none = false
is_wakeable (some t) = wakeable t

-- A thread after SIG_UBLOCK acted on it.
abbrev pub woken : Bool → Option Thread → Option Thread
woken b none = none
woken b (some t) = some (record t { status = if b && is_blocked t.status then ready else t.status })

-- The signals are among the five, and the receivers of SIG_UBLOCK are live threads.
abbrev pub Sound : Kernel → List Pending → Type 0
Sound k = All (λ x. (x.sig ≤ 4) × (x.sig ≡ Sig.ublock → (t : Thread) × (k.mem x.receiver ≡ some t)))

-- `k` is the kernel that `handleSignals` starts from, and `t` the thread that runs.
module _ (k : Kernel) (t : Thread) (at : k.mem k.current ≡ some t) (r : t.status ≡ running) where
  -- The entry wakes the thread at `p`.
  abbrev pub wakes : ℕ → Pending → Bool
  wakes p x = x.sig == Sig.ublock && x.receiver == p && is_wakeable (k.mem p)

  -- The entry is delivered to the running thread.
  abbrev pub is_taken : Pending → Bool
  is_taken x =
      not (x.sig == Sig.ublock)
      && x.receiver == k.current
      && (x.sig == Sig.kill || not (check_bit t.sigmask x.sig))

  abbrev pub acts : Pending → Bool
  acts x = wakes x.receiver x || is_taken x

  abbrev pub any_wakes : ℕ → List Pending → Bool
  any_wakes p [] = false
  any_wakes p (x ∷ xs) = wakes p x || any_wakes p xs

  abbrev pub staying : List Pending → List Pending
  staying [] = []
  staying (x ∷ xs) = if acts x then staying xs else x ∷ staying xs

  -- Some entry delivers the signal `c`.
  abbrev pub delivered : ℕ → List Pending → Bool
  delivered c [] = false
  delivered c (x ∷ xs) = (is_taken x && x.sig == c) || delivered c xs

  abbrev pub usr_sender : ℕ → List Pending → ℕ
  usr_sender s [] = s
  usr_sender s (x ∷ xs) = usr_sender (if is_taken x && x.sig == Sig.usr then x.sender else s) xs

  -- What the loop has done to the kernel once it woke the threads of `b`.
  pub record Woke (b : ℕ → Bool) (k' : Kernel) : Type 0 where
    pub mem : (p : ℕ) → k'.mem p ≡ woken (b p) (k.mem p)
    pub rest : record k' { mem = k.mem; ready_list = k.ready_list } ≡ k
    pub current : k'.current ≡ k.current

  -- The walk from `w` over the entries of `l`, to `w'`.
  pub record Walks (b : ℕ → Bool) (l : List Pending) (w w' : Walk) : Type 0 where
    pub kept : w'.kept ≡ w.kept ++ staying l
    pub sigd :
        w'.sigd < 256
        × ((c : ℕ) → c < 8 → check_bit w'.sigd c ≡ (check_bit w.sigd c || delivered c l))
    pub sender : w'.sender ≡ usr_sender w.sender l
    pub woke : Woke (λ p. b p || any_wakes p l) w'.kernel

  module _ (b : ℕ → Bool) (x : Pending) (w : Walk) (small : x.sig ≤ 4) (byte : w.sigd < 256)
      (before : Woke b w.kernel) where
    here : w.kernel.mem w.kernel.current ≡ some t
    here = rw (before.current, before.mem k.current, at) (ground (arith, r))

    -- An entry wakes no thread but its receiver.
    wakes_only : wakes x.receiver x ≡ false → (p : ℕ) → wakes p x ≡ false
    wakes_only h p = elim (Bool-cases (x.receiver == p)) [
      | inl e ↦ rw (sym ((==_iff x.receiver p).0 e)) h
      | inr e ↦ rw e (ground arith)
    ]

    still : wakes x.receiver x ≡ false → Woke (λ p. b p || any_wakes p (x ∷ [])) w.kernel
    still h = record {
      mem = λ p. rw (before.mem p, wakes_only h p) (ground arith);
      rest = before.rest;
      current = before.current;
    }

    pub kept_lem : acts x ≡ false → Walks b (x ∷ []) w (keep x w)
    kept_lem h =
        let quiet : wakes x.receiver x ≡ false = ground (arith, h) in
        let free : is_taken x ≡ false = ground (arith, h) in
        record {
          kept = rw h;
          sigd = rw free (byte, (λ c hc. ground arith));
          sender = rw free;
          woke = still quiet;
        }

    taken_lem :
        is_taken x ≡ true
        → (s : ℕ) → s ≡ (if x.sig == Sig.usr then x.sender else w.sender)
        → Walks b (x ∷ []) w (record w { sigd = set_bit w.sigd x.sig; sender = s })
    taken_lem h s e =
        let quiet : wakes x.receiver x ≡ false = ground (arith, h) in
        let act : acts x ≡ true = ground (arith, h) in
        record {
          kept = rw act (sym (append-nil w.kept));
          sigd = rw h (
            (set_bit_lem w.sigd byte x.sig 0 (omega arith) (omega arith)).1,
            (λ c hc. rw ((set_bit_lem w.sigd byte x.sig c (omega arith) hc).0) (ground arith)),
          );
          sender = rw h (ground (arith, e));
          woke = still quiet;
        }

    pub take_signal-Walks :
        (x.sig == Sig.ublock) ≡ false
        → (x.receiver == k.current) ≡ true
        → Returns (take_signal x w) (Walks b (x ∷ []) w)
    unfolding take_signal
    take_signal-Walks other mine = rw here (elim (Bool-cases (x.sig == Sig.kill)) [
      | inl e ↦ rw e (taken_lem (ground (arith, other, mine, e)) w.sender (ground (arith, e)))
      | inr e ↦ rw e (elim (Bool-cases (check_bit t.sigmask x.sig)) [
        | inl m ↦ rw m (kept_lem (ground (arith, other, mine, e, m)))
        | inr m ↦ rw m (taken_lem (ground (arith, other, mine, e, m)) _ refl)
      ])
    ])

    -- The entry acts on its receiver, at which the kernel becomes `k'`.
    woken_lem :
        (u : Thread)
        → k.mem x.receiver ≡ some u
        → (x.sig == Sig.ublock) ≡ true
        → wakeable u ≡ true
        → (k' : Kernel)
        → ((p : ℕ) → k'.mem p ≡ (if x.receiver == p then woken true (some u) else w.kernel.mem p))
        → record k' { mem = k.mem; ready_list = k.ready_list } ≡ k
        → Walks b (x ∷ []) w (record w { kernel = k' })
    woken_lem u live e g k' m rest =
        let able : is_wakeable (k.mem x.receiver) ≡ true = rw (live, g) in
        let act : acts x ≡ true = ground (arith, e, able) in
        let free : is_taken x ≡ false = ground (arith, e) in
        record {
          kept = rw act (sym (append-nil w.kept));
          sigd = rw free (byte, (λ c hc. ground arith));
          sender = rw free;
          woke = record {
            mem = λ p. elim (Bool-cases (x.receiver == p)) [
              | inl q ↦ rw (m p, sym ((==_iff x.receiver p).0 q), live, e, g) (ground arith)
              | inr q ↦ rw (m p, q, before.mem p) (ground (arith, q))
            ];
            rest = rest;
            current = ap (λ (k : Kernel). k.current) rest;
          };
        }

    -- A receiver that is not blocked is as it would be once woken.
    awake :
        (u : Thread)
        → w.kernel.mem x.receiver ≡ woken (b x.receiver) (some u)
        → is_blocked (if b x.receiver && is_blocked u.status then ready else u.status) ≡ false
        → (p : ℕ)
        → w.kernel.mem p ≡ (if x.receiver == p then woken true (some u) else w.kernel.mem p)
    awake u there f p =
        let same : (if b x.receiver && is_blocked u.status then ready else u.status)
            ≡ (if is_blocked u.status then ready else u.status) =
          ground (arith, f) in
        elim (Bool-cases (x.receiver == p)) [
          | inl q ↦ rw (q, sym ((==_iff x.receiver p).0 q), there, same) refl
          | inr q ↦ rw q
        ]

    pub wake-Walks :
        (u : Thread)
        → k.mem x.receiver ≡ some u
        → (x.sig == Sig.ublock) ≡ true
        → Returns (wake x w) (Walks b (x ∷ []) w)
    unfolding wake thread_unblock
    wake-Walks u live e =
        let there : w.kernel.mem x.receiver ≡ woken (b x.receiver) (some u) =
          rw (before.mem x.receiver, live) in
        rw there (elim (Bool-cases (wakeable u)) [
          | inl g ↦
              rw g
                (elim (Bool-cases
                  (is_blocked (if b x.receiver && is_blocked u.status then ready else u.status))) [
                    | inl f ↦
                        let blk : is_blocked u.status ≡ true = ground (arith, f) in
                        rw f (woken_lem u live e g _ (λ p. rw blk) before.rest)
                    | inr f ↦
                        rw f (woken_lem u live e g w.kernel (λ p. awake u there f p) before.rest)
                  ])
          | inr g ↦ rw g (kept_lem (ground (arith, e, live, g)))
        ])
