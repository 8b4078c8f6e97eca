-- ===== src/Sigset.antt =====
-- Pintos/Added_Signals/signal.c: `sigset_t`, an `int8_t` whose bit `s` is the signal `s`, as its bit
-- pattern. A signal is the value of its `enum sig_type`; a null pointer to a set is `none`.
pub mod How
pub mod Bits
pub mod Laws
mod Tests
use How
use Prim.Native.Nat.{bit_and, bit_or}
use linux_programming.Prelude.{
  ℕ, ◌-◌, ◌%◌, ◌^◌, Bool, true, false, ◌||◌, not, Option, none, some, ltb, ◌==◌, if◌then◌else◌,
}
use linux_programming.Prelude.Int8.{negative, minus_one}

-- `bit < 0 || bit > 7`
abbrev pub is_no_bit : ℕ → Bool
is_no_bit bit = negative bit || ltb 7 bit

-- `1 << bit`, cut to eight bits.
abbrev pub bit_mask : ℕ → ℕ
bit_mask bit = 2 ^ bit % 256

-- `~n`
abbrev pub complement : ℕ → ℕ
complement n = 255 - n

unfoldable pub set_bit : ℕ → ℕ → ℕ
set_bit n bit = if is_no_bit bit then n else bit_or n (bit_mask bit)

unfoldable pub unset_bit : ℕ → ℕ → ℕ
unset_bit n bit = if is_no_bit bit then n else bit_and n (complement (bit_mask bit))

unfoldable pub check_bit : ℕ → ℕ → Bool
check_bit n bit = if is_no_bit bit then false else not (bit_and n (bit_mask bit) == 0)

-- `sigemptyset`, `sigfillset`: what they return, and what they leave in the set.
pub sigemptyset : Option ℕ → ℕ × Option ℕ
sigemptyset none = (0, none)
sigemptyset (some set) = (0, some 0)

pub sigfillset : Option ℕ → ℕ × Option ℕ
sigfillset none = (0, none)
sigfillset (some set) = (0, some (complement 0))

-- Applies `f` to the set that a pointer points to, if it is not null.
abbrev change : (ℕ → ℕ) → Option ℕ → Option ℕ
change f none = none
change f (some set) = some (f set)

-- `sigaddset`, `sigdelset`
pub sigaddset : Option ℕ → ℕ → ℕ × Option ℕ
sigaddset set s = if ltb 4 s then (minus_one, set) else (0, change (λ n. set_bit n s) set)

pub sigdelset : Option ℕ → ℕ → ℕ × Option ℕ
sigdelset set s = if ltb 4 s then (minus_one, set) else (0, change (λ n. unset_bit n s) set)

-- What `sigprocmask` returns, the mask that it leaves, and what goes to a non-null `oldset`.
unfoldable pub new_mask : (how mask : ℕ) → Option ℕ → ℕ × ℕ
new_mask how mask none = (0, mask)
new_mask how mask (some op) =
    if how == How.block
    then (0, bit_or mask op)
    else if how == How.unblock
    then (0, bit_and mask (complement op))
    else if how == How.setmask
    then (0, op)
    else (minus_one, mask)
