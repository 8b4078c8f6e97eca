-- ===== src/Signals/Handle/Outcome.antt =====
-- What `handleSignals` leaves: the pending signals, the threads that wake, the handlers that run.
use Prim.Native.Nat.{bit_and}
use linux_programming.Prelude.{
  ℕ, ◌<◌, Bool, false, not, ◌&&◌, ◌||◌, Option, none, some, [], ◌++◌, ◌≡◌, ◌≢◌, refl, sym, ◌∙◌, ap,
  arith, inl, inr, ◌==◌, if◌then◌else◌, Bool-cases, Returns, Returns-bind, Returns-map,
}
use linux_programming.Scheduler.{running}
use linux_programming.Sig
use linux_programming.Sigset.{set_bit, check_bit}
use linux_programming.Sigset.Bits.{set_bit_lem, check_bit-and, check_bit-empty}
use linux_programming.Signals.{Thread, Kernel}
use linux_programming.Signals.Handle.{Walk, receive, run_handlers, handle_signals}
use linux_programming.Signals.Handle.Delivery.{
  Sound, woken, any_wakes, staying, delivered, usr_sender, Woke, Walks,
}
use linux_programming.Signals.Handle.Receive.{
  lines, count_child, Runs, receive-Walks, run_handlers-Runs, current_lem,
}

pub woken-false : (o : Option Thread) → woken false o ≡ o
woken-false none = refl
woken-false (some t) = refl

module _ (k : Kernel) (t : Thread) (at : k.mem k.current ≡ some t) (r : t.status ≡ running)
    (scpu : Bool) where
  -- The signal is delivered to the running thread: it was pending, or it is SIG_CPU and the time is up.
  abbrev pub raised : ℕ → Bool
  raised c =
      delivered k t at r c k.sig_list || (Sig.cpu == c && scpu && not (check_bit t.sigmask Sig.cpu))

  -- Its default handler runs.
  abbrev pub called : ℕ → Bool
  called c = raised c && check_bit t.sigign c

  pub record Handles (x : Bool × Kernel) : Type 0 where
    pub pending : x.1.sig_list ≡ staying k t at r k.sig_list
    pub exits : x.0 ≡ (called Sig.cpu || raised Sig.kill)
    pub console :
        x.1.console
        ≡ k.console
          ++ lines
              (called Sig.usr)
              (called Sig.chld)
              (called Sig.cpu)
              (raised Sig.kill)
              (usr_sender k t at r 0 k.sig_list)
              t
    pub current : x.1.mem k.current ≡ some (count_child (called Sig.chld) t)
    pub others :
        (p : ℕ) → p ≢ k.current → x.1.mem p ≡ woken (any_wakes k t at r p k.sig_list) (k.mem p)

  module _ (byte : t.sigign < 256) (w : Walk)
      (h : Walks k t at r
        (λ p. false)
        k.sig_list
        (record { kept = []; sigd = 0; sender = 0; kernel = k })
        w) where
    abbrev sigd : ℕ
    sigd = if not (check_bit t.sigmask Sig.cpu) && scpu then set_bit w.sigd Sig.cpu else w.sigd

    sigd_lem : (sigd < 256) × ((c : ℕ) → c < 8 → check_bit sigd c ≡ raised c)
    sigd_lem =
        let all : (c : ℕ) → c < 8 → check_bit w.sigd c ≡ delivered k t at r c k.sig_list =
          λ c hc. rw (h.sigd.1 c hc, check_bit-empty c hc) in
        elim (Bool-cases (not (check_bit t.sigmask Sig.cpu) && scpu)) [
          | inl e ↦ rw e (
            (set_bit_lem w.sigd h.sigd.0 Sig.cpu 0 (omega arith) (omega arith)).1,
            (λ c hc.
                rw ((set_bit_lem w.sigd h.sigd.0 Sig.cpu c (omega arith) hc).0, all c hc)
                  (ground (arith, e))),
          )
          | inr e ↦ rw e (h.sigd.0, (λ c hc. rw (all c hc) (ground (arith, e))))
        ]

    calls : ℕ
    calls = bit_and sigd t.sigign

    calls-called : (c : ℕ) → c < 8 → check_bit calls c ≡ called c
    unfolding calls
    calls-called c hc = rw (check_bit-and sigd t.sigign sigd_lem.0 byte c hc, sigd_lem.1 c hc)

    abbrev walked : Kernel
    walked = record w.kernel { sig_list = w.kept }

    here : walked.mem walked.current ≡ some t
    here = rw (h.woke.current, h.woke.mem k.current, at) (ground (arith, r))

    Runs-Handles :
        (x : Bool × Kernel)
        → Runs walked t here r
            (check_bit calls Sig.usr)
            (check_bit calls Sig.chld)
            (check_bit calls Sig.cpu)
            (check_bit sigd Sig.kill)
            w.sender
            x
        → Handles x
    Runs-Handles x q = record {
      pending = ap (λ (k : Kernel). k.sig_list) q.rest ∙ h.kept;
      exits = rw (q.exits, calls-called Sig.cpu (omega arith), sigd_lem.1 Sig.kill (omega arith));
      console =
          let same : w.kernel.console ≡ k.console = ap (λ (k : Kernel). k.console) h.woke.rest in
          rw (
            q.console,
            same,
            calls-called Sig.usr (omega arith),
            calls-called Sig.chld (omega arith),
            calls-called Sig.cpu (omega arith),
            sigd_lem.1 Sig.kill (omega arith),
            h.sender,
          );
      current =
          sym (ap x.1.mem h.woke.current)
          ∙ q.current
          ∙ ap (λ (c : Bool). some (count_child c t)) (calls-called Sig.chld (omega arith));
      others = λ p ne. q.others p (λ same. ne (same ∙ h.woke.current)) ∙ h.woke.mem p;
    }

  -- When the ignore set of the running thread is a byte, no more than the five signals are pending, and the receivers of SIG_UBLOCK are live,
  -- `handleSignals` returns. The pending entries that act are gone and the others stay in order: SIG_UBLOCK
  -- acts where its receiver neither masks nor ignores it, and wakes the receiver if it is blocked; the other
  -- signals act on the running thread, where they are not masked, and SIG_KILL in any case. The handlers of
  -- the signals that are delivered and not ignored run, and `thread_exit` is called for SIG_KILL, even ignored,
  -- and for SIG_CPU.
  pub handle_signals-Handles :
      t.sigign < 256 → Sound k k.sig_list → Returns (handle_signals scpu k) Handles
  unfolding handle_signals calls
  handle_signals-Handles byte sound =
      let start : Walk = record { kept = []; sigd = 0; sender = 0; kernel = k } in
      let none_yet : Woke k t at r (λ p. false) k = record {
        mem = λ p. sym (woken-false (k.mem p));
        rest = refl;
        current = refl;
      } in
      rw (current_lem k t at r) (
        Returns-bind (Walks k t at r (λ p. false) k.sig_list start) Handles
          (receive k.sig_list start) _
          (receive-Walks k t at r k.sig_list (λ p. false) start sound (omega arith) none_yet)
          (λ w h. rw (here byte w h) (
            Returns-map _ Handles
              (run_handlers (sigd byte w h) (calls byte w h) w.sender (walked byte w h))
              (run_handlers-Runs (walked byte w h) t (here byte w h) r (sigd byte w h)
                (calls byte w h) w.sender)
              (Runs-Handles byte w h))))
