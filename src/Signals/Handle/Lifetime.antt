-- ===== src/Signals/Handle/Lifetime.antt =====
-- The end of `thread_schedule_tail`: when the thread that is switched to has to exit.
use linux_programming.Prelude.{
  ℕ, ◌+◌, ◌-◌, ◌%◌, ◌^◌, ◌≤◌, ◌<◌, Bool, not, ◌&&◌, ◌||◌, some, ◌≡◌, arith, ltb, ◌==◌, Returns,
  Returns-map, ◌∙◌,
}
use linux_programming.Scheduler.{running}
use linux_programming.Sig
use linux_programming.Sigset.{check_bit}
use linux_programming.Signals.{Thread, Kernel}
use linux_programming.Signals.Handle.{over_lifetime, handle_signals, check_signals}
use linux_programming.Signals.Handle.Delivery.{Sound, delivered}
use linux_programming.Signals.Handle.Outcome.{Handles, handle_signals-Handles}

-- The thread has a limit, and more ticks than that have passed since it was created.
abbrev pub outlived : (clock_count : ℕ) → Thread → Bool
outlived clock_count t = not (t.maxlifetime == 0) && ltb t.maxlifetime (clock_count - t.starttime)

over_lifetime-outlived :
    (clock_count : ℕ) (t : Thread)
    → clock_count < 2 ^ 64
    → t.starttime ≤ clock_count
    → over_lifetime clock_count t ≡ outlived clock_count t
unfolding over_lifetime
over_lifetime-outlived clock_count t small since =
    let age : (clock_count + (2 ^ 64 - t.starttime)) % 2 ^ 64 ≡ clock_count - t.starttime =
      omega arith in
    rw age (ground arith)

-- Where the running thread was created by now, its ignore set is a byte, no more than the five signals are
-- pending and the receivers of SIG_UBLOCK are live: the end of `thread_schedule_tail` returns, and
-- `thread_exit` is called exactly where SIG_KILL is delivered, or SIG_CPU is not ignored and is delivered, by
-- an unmasked SIG_CPU that pends or by a lifetime that is over while SIG_CPU is not masked.
pub check_signals-exits :
    (k : Kernel) (t : Thread) (at : k.mem k.current ≡ some t) (r : t.status ≡ running)
    → k.clock_count < 2 ^ 64
    → t.starttime ≤ k.clock_count
    → t.sigign < 256
    → Sound k k.sig_list
    → Returns (check_signals k) (λ x. x.0 ≡ (
        (delivered k t at r Sig.cpu k.sig_list
            || (outlived k.clock_count t && not (check_bit t.sigmask Sig.cpu)))
          && check_bit t.sigign Sig.cpu
        || delivered k t at r Sig.kill k.sig_list))
unfolding check_signals
check_signals-exits k t at r small since byte sound =
    let over = over_lifetime k.clock_count t in
    let e = over_lifetime-outlived k.clock_count t small since in
    rw at (
      Returns-map (Handles k t at r over) _ (handle_signals over k)
        (handle_signals-Handles k t at r over byte sound) (λ x h. h.exits ∙ rw e (ground arith)))
