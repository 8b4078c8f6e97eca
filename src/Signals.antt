-- ===== src/Signals.antt =====
-- Pintos/Added_Signals: signal.c and signal.h, and what they add to thread.c and thread.h. A thread
-- is known by the address of its page, and `none` is a failed ASSERT or an access to freed memory.
-- `allocated` says whether `malloc` finds memory, and `console` is what the handlers print.
pub mod SigList
pub mod Posting
pub mod Handle
pub mod Switch
mod Tests
use Prim.Native.Nat.{bit_and}
use linux_programming.Prelude.{
  ℕ, ◌+◌, ◌-◌, ◌%◌, ◌^◌, Bool, true, false, not, ◌&&◌, ◌||◌, Option, none, some, List, [], ◌∷◌,
  ◌++◌, ltb, leb, ◌==◌, if◌then◌else◌, ◌>>=◌, ◌>>◌, ensure, remove, take,
}
use linux_programming.Prelude.Store.{update}
use linux_programming.Prelude.Int8.{minus_one}
use linux_programming.Scheduler.{Status, running, ready, blocked, dying, is_running, is_blocked}
use linux_programming.Sig
use linux_programming.Sigset.{set_bit, unset_bit, check_bit, new_mask}
use SigList.{Pending, resend}

-- `struct thread`. `parent` is an `int`, -1 for none, and the counts of children are `unsigned`, all
-- as bit patterns.
pub record Thread : Type 0 where
  pub tid : ℕ
  pub status : Status
  pub name : List ℕ
  pub priority : ℕ
  pub parent : ℕ
  pub sigign : ℕ
  pub sigmask : ℕ
  pub starttime : ℕ
  pub maxlifetime : ℕ
  pub child : ℕ
  pub dchild : ℕ

-- The lines that the handlers print.
pub data Message : Type 0 where
  killed : Message
  max_lifetime : (maxlife : ℕ) → Message
  usr_from : (sender : ℕ) → Message
  chld : (created alive : ℕ) → Message

pub record Kernel : Type 0 where
  pub mem : ℕ → Option Thread
  pub ready_list : List ℕ
  pub all_list : List ℕ
  pub sig_list : List Pending
  pub current : ℕ
  pub clock_count : ℕ
  pub interrupts : Bool
  pub console : List Message

-- The bit pattern of the `int` -1.
abbrev pub minus_one_int : ℕ
minus_one_int = 2 ^ 32 - 1

abbrev pub store : ℕ → Thread → Kernel → Kernel
store p t k = record k { mem = update k.mem p (some t) }

abbrev pub print : Message → Kernel → Kernel
print m k = record k { console = k.console ++ m ∷ [] }

-- `thread_current`
pub thread_current : Kernel → Option Thread
thread_current k = do t ← k.mem k.current; ensure (is_running t.status); some t

-- `thread_unblock`
pub thread_unblock : ℕ → Kernel → Option Kernel
thread_unblock p k = do
  t ← k.mem p
  ensure (is_blocked t.status)
  some (store p (record t { status = ready }) (record k { ready_list = k.ready_list ++ p ∷ [] }))

-- `get_thread`: the first thread of the list with that identifier; `some none` is NULL.
pub get_thread : ℕ → List ℕ → (ℕ → Option Thread) → Option (Option ℕ)
get_thread tid [] m = some none
get_thread tid (p ∷ ps) m = do t ← m p; if t.tid == tid then some (some p) else get_thread tid ps m

-- `Signal`: bit `s` of `sigign` is set where the default handler runs. `a` is an `enum sig_action`,
-- 0 to ignore and 1 for the default.
pub signal : (s a : ℕ) → Kernel → Option (ℕ × Kernel)
signal s a k = do
  t ← thread_current k
  if a == 1
      then some (0, store k.current (record t { sigign = set_bit t.sigign s }) k)
      else if a == 0
      then some (0, store k.current (record t { sigign = unset_bit t.sigign s }) k)
      else some (minus_one, k)

-- `sigprocmask`: what it returns, what goes to `oldset`, and the kernel.
pub sigprocmask : (how : ℕ) → Option ℕ → Kernel → Option (ℕ × ℕ × Kernel)
sigprocmask how set k = do
  t ← thread_current k
  let (r, mask) = new_mask how t.sigmask set
  some (r, t.sigmask, store k.current (record t { sigmask = mask }) k)

-- `setlifetime`
pub setlifetime : ℕ → Kernel → Option Kernel
setlifetime x k = do
  t ← thread_current k
  some (store k.current (record t { maxlifetime = x % 2 ^ 64 }) k)

-- The loop that `kill` and `thread_exit` share: a signal that is pending already gets the new sender,
-- another is appended.
pub post : (allocated : Bool) (receiver sig sender : ℕ) → Kernel → Option Kernel
post allocated receiver sig sender k = do
  let (l, found) = resend receiver sig sender k.sig_list
  if found then some (record k { sig_list = l }) else (do
    ensure allocated
    some (record k {
      sig_list = l ++ record { sig = sig; sender = sender; receiver = receiver } ∷ [];
    }))

-- The signals that `kill` sends.
abbrev pub can_kill : ℕ → Bool
can_kill s = s == Sig.kill || s == Sig.ublock || s == Sig.usr

-- `kill`, once the receiver is found; `old` is the level of interrupts before the call.
pub kill_thread : (allocated : Bool) (sender p s : ℕ) (old : Bool) → Kernel → Option (ℕ × Kernel)
kill_thread allocated sender p s old k = do
  t ← k.mem p
  if s == Sig.kill && not (t.parent == sender)
      then some (minus_one, k)
      else (do k ← post allocated p s sender k; some (0, record k { interrupts = old }))

-- `kill`
pub kill : (allocated : Bool) (tid s : ℕ) → Kernel → Option (ℕ × Kernel)
kill allocated tid s k =
    if can_kill s
    then (do
      st ← thread_current k
      let k' = record k { interrupts = false }
      dt ← get_thread tid k'.all_list k'.mem
      elim dt [
        | none ↦ some (minus_one, k')
        | some p ↦ kill_thread allocated st.tid p s k.interrupts k'
      ])
    else some (minus_one, k)
