-- ===== src/Shell/Builtin/Copies.antt =====
-- The command `cp` of shell.c, on all its branches.
use linux_programming.Prelude.{
  ℕ, ◌+◌, ◌≤◌, Option, none, some, List, [], ◌++◌, ◌≡◌, if◌then◌else◌, is_empty,
}
use linux_programming.Shell.Text.{Word}
use linux_programming.Shell.Transfer.{buf_size}
use linux_programming.Shell.Console.{Os, State}
use linux_programming.Shell.Builtin.{input_of}

-- A descriptor at the end of its file stays open where the loop does nothing.
abbrev pub unread : Option (List ℕ) → ℕ
unread none = 0
unread (some l) = if is_empty l then 1 else 0

-- What `cp` leads to: the new file could not be created; the other one could not be read, and the new one is
-- empty; or the first part of what is read stands in the new file, and all of it where the writes are whole. In
-- no case is anything printed. The input is left open where nothing remains to be copied.
pub data Copies {S : Type 0} (os : Os S) (second third : Option Word) (k k' : State S)
    : Type 0 where
  no_target :
      os.create third k.world ≡ none
      → k' ≡ record k { left_open = k.left_open + unread (os.read second k.world) }
      → Copies os second third k k'
  no_source :
      (s : S)
      → os.create third k.world ≡ some s
      → input_of os (os.read second k.world) (os.read second s) ≡ none
      → k' ≡ record { world = os.write third [] s; output = k.output; left_open = k.left_open + 0 }
      → Copies os second third k k'
  part :
      (s : S) (p rest : List ℕ)
      → os.create third k.world ≡ some s
      → input_of os (os.read second k.world) (os.read second s) ≡ some (p ++ rest)
      → (((j : ℕ) → buf_size ≤ os.stored s j) → rest ≡ [])
      → k' ≡ record {
        world = os.write third p s;
        output = k.output;
        left_open = k.left_open + (if is_empty rest then 1 else 0);
      }
      → Copies os second third k k'
