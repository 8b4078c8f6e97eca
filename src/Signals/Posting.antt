-- ===== src/Signals/Posting.antt =====
-- `kill`: who may send what to whom, and what is pending afterwards.
use linux_programming.Prelude.{
  ℕ, Bool, true, false, not, ◌&&◌, Option, none, some, List, [], ◌∷◌, ◌≡◌, ◌≢◌, refl, arith, inl,
  inr, ◌==◌, if◌then◌else◌, Bool-cases, ensure, Returns, All, ==_iff,
}
use linux_programming.Prelude.Int8.{minus_one}
use linux_programming.Scheduler.{running, is_running}
use linux_programming.Sig
use linux_programming.Signals.{
  Thread, Kernel, thread_current, get_thread, post, can_kill, kill_thread, kill,
}
use linux_programming.Signals.SigList.{OneEach, sender_of, sent, sender_of-sent, sent-OneEach}

abbrev pub Memory : Type 0
Memory = ℕ → Option Thread

-- A page of the list holds a thread with the identifier.
abbrev pub HasTid : Memory → ℕ → ℕ → Type 0
HasTid m tid p = (t : Thread) × (m p ≡ some t) × (t.tid ≡ tid)

abbrev pub Lacks : Memory → ℕ → List ℕ → Type 0
Lacks m tid = All (λ p. (t : Thread) × (m p ≡ some t) × (t.tid ≢ tid))

abbrev pub Finds : Memory → ℕ → List ℕ → Option ℕ → Type 0
Finds m tid l none = Lacks m tid l
Finds m tid l (some p) = HasTid m tid p

-- On a list of live threads `get_thread` returns: a thread with the identifier, or NULL if none has it.
pub get_thread-Finds :
    (m : Memory) (tid : ℕ) (l : List ℕ)
    → All (λ p. (t : Thread) × (m p ≡ some t)) l
    → Returns (get_thread tid l m) (Finds m tid l)
unfolding get_thread
get_thread-Finds m tid [] h = tt
get_thread-Finds m tid (p ∷ ps) h = rw h.0.1 (elim (Bool-cases (h.0.0.tid == tid)) [
  | inl e ↦ rw e (h.0.0, h.0.1, (==_iff h.0.0.tid tid).0 e)
  | inr e ↦ rw e (
      step (get_thread tid ps m) (get_thread-Finds m tid ps h.1)
        (h.0.0, h.0.1, (λ s. ground arith)))
])
  where
    step :
        (r : Option (Option ℕ))
        → Returns r (Finds m tid ps)
        → (t : Thread) × (m p ≡ some t) × (t.tid ≢ tid)
        → Returns r (Finds m tid (p ∷ ps))
    step none f x = f
    step (some none) f x = (x, f)
    step (some (some q)) f x = f

pub post_lem :
    (receiver sig sender : ℕ) (k : Kernel)
    → post true receiver sig sender k
      ≡ some (record k { sig_list = sent receiver sig sender k.sig_list })
unfolding post
post_lem receiver sig sender k = ground arith

-- What a successful `kill` leaves: the signal is pending for `p` once, from the caller; nothing else
-- has changed.
pub record Sends (k : Kernel) (p s sender : ℕ) (r : ℕ × Kernel) : Type 0 where
  pub status : r.0 ≡ 0
  pub pending :
      (q u : ℕ)
      → sender_of q u r.1.sig_list
        ≡ (if q == p && u == s then some sender else sender_of q u k.sig_list)
  pub single : OneEach k.sig_list → OneEach r.1.sig_list
  pub rest : r.1 ≡ record k { sig_list = r.1.sig_list }

-- A refused `kill` returns -1 and changes nothing but the interrupts, which it leaves at `level`.
abbrev pub Refused : Kernel → Bool → ℕ × Kernel → Type 0
Refused k level r = r ≡ (minus_one, record k { interrupts = level })

module _ (k : Kernel) (st : Thread) (at : k.mem k.current ≡ some st) (r : st.status ≡ running)
    (tid s : ℕ) where
  current_lem : thread_current k ≡ some st
  unfolding thread_current
  current_lem = let on : ensure (is_running st.status) ≡ some tt = ground arith in rw (at, on)

  module _ (allowed : can_kill s ≡ true) where
    -- For a signal that may be sent, where `get_thread` finds the receiver and memory is found: SIG_KILL to
    -- a thread that is not a child of the caller returns -1 and changes nothing but the interrupts, which
    -- it leaves off; otherwise `kill` returns 0, the signal is pending for the receiver from the caller, and
    -- nothing else has changed; where no signal was pending twice for a thread, none is.
    pub kill-Sends :
        (p : ℕ) (t : Thread)
        → get_thread tid k.all_list k.mem ≡ some (some p)
        → k.mem p ≡ some t
        → Returns (kill true tid s k) (λ x.
          if s == Sig.kill && not (t.parent == st.tid)
          then Refused k false x
          else Sends k p s st.tid x)
    unfolding kill kill_thread
    kill-Sends p t found here =
        rw (allowed, current_lem, found, here)
          (elim (Bool-cases (s == Sig.kill && not (t.parent == st.tid))) [
            | inl e ↦ rw e
            | inr e ↦
                rw (e, post_lem p s st.tid (record k { interrupts = false }))
                  (record {
                    status = refl;
                    pending = λ q u. sender_of-sent p s st.tid q u k.sig_list;
                    single = sent-OneEach p s st.tid k.sig_list;
                    rest = refl;
                  })
          ])

    -- For a signal that may be sent, where `get_thread` finds no thread, `kill` returns -1 and changes nothing
    -- but the interrupts, which it leaves off.
    pub kill-no_thread :
        get_thread tid k.all_list k.mem ≡ some none → Returns (kill true tid s k) (Refused k false)
    unfolding kill
    kill-no_thread lost = rw (allowed, current_lem, lost)
