-- ===== src/Signals/Tests.antt =====
-- A kernel of three threads with pending signals, and each theorem about signals at it.
use linux_programming.Prelude.{
  ℕ, true, false, not, ◌&&◌, Option, none, some, List, [], ◌∷◌, ◌≡◌, refl, arith, ◌==◌,
  if◌then◌else◌, Returns,
}
use linux_programming.Scheduler.{Status, running, ready, blocked}
use linux_programming.Sig
use linux_programming.Signals.{Thread, Kernel, minus_one_int, get_thread, kill}
use linux_programming.Signals.SigList.{Pending}
use linux_programming.Signals.Posting.{Sends, Refused, kill-Sends}
use linux_programming.Signals.Handle.{handle_signals}
use linux_programming.Signals.Handle.Outcome.{Handles, handle_signals-Handles}

abbrev thread : (tid : ℕ) → Status → (parent : ℕ) → Thread
thread tid s parent = record {
  tid = tid;
  status = s;
  name = [];
  priority = 31;
  parent = parent;
  sigign = 255;
  sigmask = 0;
  starttime = 5;
  maxlifetime = 9;
  child = 2;
  dchild = 0;
}

-- The main thread 1 at page 10 runs; its children are 3, which is blocked, and 4.
abbrev main_thread : Thread
main_thread = thread 1 running minus_one_int

abbrev child_thread : Thread
child_thread = thread 3 blocked 1

abbrev memory : ℕ → Option Thread
memory p =
    if p == 10
    then some main_thread
    else if p == 20
    then some child_thread
    else if p == 30
    then some (thread 4 ready 1)
    else none

-- Thread 3 is to wake, the main thread has SIG_USR and SIG_CHLD, and thread 4 has SIG_USR.
abbrev pending : List Pending
pending =
    record { sig = Sig.ublock; sender = 1; receiver = 20 }
    ∷ record { sig = Sig.usr; sender = 4; receiver = 10 }
    ∷ record { sig = Sig.usr; sender = 1; receiver = 30 }
    ∷ record { sig = Sig.chld; sender = minus_one_int; receiver = 10 }
    ∷ []

abbrev kernel : Kernel
kernel = record {
  mem = memory;
  ready_list = 30 ∷ [];
  all_list = 10 ∷ 20 ∷ 30 ∷ [];
  sig_list = pending;
  current = 10;
  clock_count = 20;
  interrupts = true;
  console = [];
}

found_three : get_thread 3 kernel.all_list kernel.mem ≡ some (some 20)
unfolding get_thread
found_three = refl

found_no_nine : get_thread 9 kernel.all_list kernel.mem ≡ some none
unfolding get_thread
found_no_nine = refl

kill-Sends_example : Returns (kill true 3 Sig.kill kernel) (λ x.
    if Sig.kill == Sig.kill && not (child_thread.parent == main_thread.tid)
    then Refused kernel false x
    else Sends kernel 20 Sig.kill 1 x)
kill-Sends_example =
    kill-Sends kernel main_thread refl refl 3 Sig.kill refl 20 child_thread found_three refl

handle_signals-Handles_example :
    Returns (handle_signals true kernel) (Handles kernel main_thread refl refl true)
handle_signals-Handles_example =
    handle_signals-Handles kernel main_thread refl refl true (omega arith) (
      (omega arith, (λ e. (child_thread, refl))),
      (
        (omega arith, (λ e. (main_thread, refl))),
        (
          (omega arith, (λ e. (thread 4 ready 1, refl))),
          ((omega arith, (λ e. (main_thread, refl))), tt),
        ),
      ),
    )
