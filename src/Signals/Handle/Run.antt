-- ===== src/Signals/Handle/Run.antt =====
-- A run of `handleSignals` where every kind of signal is pending.
use linux_programming.Prelude.{
  ℕ, Bool, true, Option, none, some, List, [], ◌∷◌, ◌≡◌, refl, ◌==◌, if◌then◌else◌,
}
use linux_programming.Sig
use linux_programming.Scheduler.{Status, running, blocked}
use linux_programming.Sigset.{set_bit, check_bit}
use linux_programming.Signals.{
  Thread, Kernel, Message, usr_from, chld, max_lifetime, thread_current, thread_unblock,
}
use linux_programming.Signals.Handle.{
  handle_signals, receive, deliver, wake, take_signal, run_handlers, run_fatal, child_handler,
}

abbrev thread : Status → Thread
thread s = record {
  tid = 1;
  status = s;
  name = [];
  priority = 31;
  parent = 9;
  sigign = 255;
  sigmask = 0;
  starttime = 5;
  maxlifetime = 9;
  child = 2;
  dchild = 0;
}

abbrev kernel : Kernel
kernel = record {
  mem = λ p.
      if p == 10 then some (thread running) else if p == 20 then some (thread blocked) else none;
  ready_list = 30 ∷ [];
  all_list = 10 ∷ 20 ∷ [];
  sig_list =
      record { sig = Sig.ublock; sender = 1; receiver = 20 }
      ∷ record { sig = Sig.usr; sender = 4; receiver = 10 }
      ∷ record { sig = Sig.usr; sender = 1; receiver = 30 }
      ∷ record { sig = Sig.chld; sender = 3; receiver = 10 }
      ∷ [];
  current = 10;
  clock_count = 20;
  interrupts = true;
  console = [];
}

abbrev outcome : Option (Bool × Kernel) → List ℕ × List Message
outcome none = ([], [])
outcome (some r) = (r.1.ready_list, r.1.console)

delivers :
    outcome (handle_signals true kernel)
    ≡ (30 ∷ 20 ∷ [], usr_from 4 ∷ chld 2 1 ∷ max_lifetime 9 ∷ [])
unfolding handle_signals receive deliver wake take_signal run_handlers run_fatal child_handler
    thread_current thread_unblock set_bit check_bit
delivers = refl
