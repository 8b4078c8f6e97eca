-- ===== src/Signals/Handle.antt =====
-- Pintos/Added_Signals/signal.c: `handleSignals` and the handlers, and from thread.c the test of
-- the lifetime in `thread_schedule_tail` and the loop of `thread_exit` over the other threads.
pub mod Delivery
pub mod Receive
pub mod Outcome
pub mod Exit
pub mod Lifetime
pub mod Quiet
pub mod Orphans
mod Run
use Prim.Native.Nat.{bit_and}
use linux_programming.Prelude.{
  ℕ, ◌+◌, ◌-◌, ◌%◌, ◌^◌, Bool, true, false, not, ◌&&◌, Option, none, some, List, [], ◌∷◌, ◌++◌, ltb,
  ◌==◌, if◌then◌else◌, ◌>>=◌, ◌>>◌, ensure,
}
use linux_programming.Scheduler.{is_blocked}
use linux_programming.Sig
use linux_programming.Sigset.{set_bit, check_bit}
use linux_programming.Signals.{
  Thread, Kernel, killed, max_lifetime, usr_from, chld, minus_one_int, store, print, thread_current,
  thread_unblock, post,
}
use linux_programming.Signals.SigList.{Pending}

-- The loop of `handleSignals`: the entries that stay, the signals that are delivered to the current
-- thread as a set, and who sent the last SIG_USR.
pub record Walk : Type 0 where
  pub kept : List Pending
  pub sigd : ℕ
  pub sender : ℕ
  pub kernel : Kernel

abbrev pub keep : Pending → Walk → Walk
keep x w = record w { kept = w.kept ++ x ∷ [] }

-- SIG_UBLOCK acts on its receiver, whichever thread runs.
pub wake : Pending → Walk → Option Walk
wake x w = do
  r ← w.kernel.mem x.receiver
  if not (check_bit r.sigmask Sig.ublock) && check_bit r.sigign Sig.ublock
      then (if is_blocked r.status
          then (do k ← thread_unblock x.receiver w.kernel; some (record w { kernel = k }))
          else some w)
      else some (keep x w)

-- Any other signal waits until its receiver runs.
pub take_signal : Pending → Walk → Option Walk
take_signal x w = do
  t ← w.kernel.mem w.kernel.current
  if x.sig == Sig.kill
      then some (record w { sigd = set_bit w.sigd x.sig })
      else if not (check_bit t.sigmask x.sig)
      then some (record w {
        sigd = set_bit w.sigd x.sig;
        sender = if x.sig == Sig.usr then x.sender else w.sender;
      })
      else some (keep x w)

pub deliver : Pending → Walk → Option Walk
deliver x w =
    if x.sig == Sig.ublock
    then wake x w
    else if x.receiver == w.kernel.current
    then take_signal x w
    else some (keep x w)

unfoldable pub receive : List Pending → Walk → Option Walk
receive [] w = some w
receive (x ∷ xs) w = do w ← deliver x w; receive xs w

-- `CHILD_handler`
pub child_handler : Kernel → Option Kernel
child_handler k = do
  t ← thread_current k
  let dchild = (t.dchild + 1) % 2 ^ 32
  some (
      print (chld t.child ((t.child + (2 ^ 32 - dchild)) % 2 ^ 32))
        (store k.current (record t { dchild = dchild }) k))

-- The last two handlers that `handleSignals` may call, which call `thread_exit`, and whether it calls one.
pub run_fatal : (sigd calls : ℕ) → Kernel → Option (Bool × Kernel)
run_fatal sigd calls k = do
  t ← k.mem k.current
  if check_bit calls Sig.cpu
      then some (true, print (max_lifetime (t.maxlifetime % 2 ^ 32)) k)
      else if check_bit sigd Sig.kill
      then some (true, print killed k)
      else some (false, k)

-- The handlers, in the order of `handleSignals`, and whether it calls `thread_exit`.
pub run_handlers : (sigd calls sender : ℕ) → Kernel → Option (Bool × Kernel)
run_handlers sigd calls sender k = do
  let k = if check_bit calls Sig.usr then print (usr_from sender) k else k
  k ← if check_bit calls Sig.chld then child_handler k else some k
  run_fatal sigd calls k

-- `handleSignals`
pub handle_signals : (scpu : Bool) → Kernel → Option (Bool × Kernel)
handle_signals scpu k = do
  t ← thread_current k
  w ← receive k.sig_list (record { kept = []; sigd = 0; sender = 0; kernel = k })
  let k = record w.kernel { sig_list = w.kept }
  t ← k.mem k.current
  let sigd = if not (check_bit t.sigmask Sig.cpu) && scpu then set_bit w.sigd Sig.cpu else w.sigd
  run_handlers sigd (bit_and sigd t.sigign) w.sender k

-- The thread has a limit, and has lived longer, on clocks of 64 bits.
pub over_lifetime : (clock_count : ℕ) → Thread → Bool
over_lifetime clock_count t =
    ltb t.maxlifetime ((clock_count + (2 ^ 64 - t.starttime)) % 2 ^ 64) && not (t.maxlifetime == 0)

-- The end of `thread_schedule_tail`, once the thread that is switched to runs.
pub check_signals : Kernel → Option (Bool × Kernel)
check_signals k = do cur ← k.mem k.current; handle_signals (over_lifetime k.clock_count cur) k

-- `thread_exit` at a thread of the list with the identifier `tid`: the parent is sent SIG_CHLD.
pub tell : (allocated : Bool) (dying p tid : ℕ) → Kernel → Option Kernel
tell allocated dying p tid k = do
  t ← k.mem dying
  if t.parent == tid then post allocated p Sig.chld minus_one_int k else some k

-- `thread_exit` at one thread of the list, which is an orphan if the dying thread is its parent.
pub notify : (allocated : Bool) (dying p : ℕ) → Kernel → Option Kernel
notify allocated dying p k = do
  t ← k.mem dying
  l ← k.mem p
  tell allocated dying p l.tid
      (if l.parent == t.tid then store p (record l { parent = minus_one_int }) k else k)

-- The loop of `thread_exit`.
unfoldable pub notify_all : (allocated : Bool) (dying : ℕ) → List ℕ → Kernel → Option Kernel
notify_all allocated dying [] k = some k
notify_all allocated dying (p ∷ ps) k = do
  k ← notify allocated dying p k
  notify_all allocated dying ps k
