-- ===== src/Shell/Console.antt =====
-- Command_interrupter/shell.c, what the builtin commands work with: the calls of the system, what is printed, the names
-- of the commands, and the letters that `ls -l` prints.
pub mod Mode
use linux_programming.Prelude.{
  ℕ, zero, suc, ◌+◌, ◌/◌, ◌%◌, Bool, true, false, Option, none, some, List, [], ◌∷◌, ◌++◌, ◌==◌,
  if◌then◌else◌, ◌>>=◌, ◌>>◌, ensure, length, ltb,
}
use linux_programming.Shell.{Action, external}
use linux_programming.Shell.Text.{Word, str_eq}
use linux_programming.Shell.Lines.{words, logged_first, logged_second}
use linux_programming.Shell.Transfer.{Descriptors, transfer, rounds_of}

-- What `ls -l` prints of `struct stat`.
pub record Stat : Type 0 where
  pub st_mode : ℕ
  pub st_nlink : ℕ
  pub st_size : ℕ
  pub st_atime : ℕ

-- The calls of the system. A path may be NULL. `false` is a call that failed, `none` one that gave NULL or no
-- descriptor: for `append` it is `fopen`, for `read` and `create` `open`; `stored` is how many bytes the n-th
-- write to a new file stores. `curwd` is what a `getcwd` that fails leaves in its buffer, and `arg` what `arg` holds before
-- a line.
pub record Os (S : Type 0) : Type 0 where
  pub getcwd : S → Option Word
  pub curwd : S → Word
  pub arg : S → List (Option Word)
  pub chdir : Word → S → Bool × S
  pub mkdir : Word → S → Bool × S
  pub rmdir : Word → S → Bool × S
  pub append : Word → List ℕ → S → Option S
  pub readdir : Word → S → Option (List Word)
  pub stat : Word → S → Option Stat
  pub read : Option Word → S → Option (List ℕ)
  pub create : Option Word → S → Option S
  pub stored : S → ℕ → ℕ
  pub write : Option Word → List ℕ → S → S
  pub run : Action → S → S

-- What the shell prints.
pub data Output : Type 0 where
  prompt : Word → Output
  text : Word → Output
  error : Output
  newline : Output
  entry : (mode : List ℕ) (nlink size atime : ℕ) (name : Word) → Output

-- The system, what was printed, and the descriptors that the shell has left open.
pub record State (S : Type 0) : Type 0 where
  pub world : S
  pub output : List Output
  pub left_open : ℕ

pub data Next (S : Type 0) : Type 0 where
  goes_on : State S → Next S
  exits : State S → Next S

-- What `printf` prints for what `getcwd` returns, `(null)` for NULL, and what then stands in `curwd`.
abbrev pub shown : Option Word → (curwd : Word) → Word × Word
shown none curwd = (b'(' ∷ b'n' ∷ b'u' ∷ b'l' ∷ b'l' ∷ b')' ∷ [], curwd)
shown (some dir) curwd = (dir, dir)

abbrev pub cd_name : Word
cd_name = b'c' ∷ b'd' ∷ []

abbrev pub pwd_name : Word
pwd_name = b'p' ∷ b'w' ∷ b'd' ∷ []

abbrev pub mkdir_name : Word
mkdir_name = b'm' ∷ b'k' ∷ b'd' ∷ b'i' ∷ b'r' ∷ []

abbrev pub rmdir_name : Word
rmdir_name = b'r' ∷ b'm' ∷ b'd' ∷ b'i' ∷ b'r' ∷ []

abbrev pub ls_name : Word
ls_name = b'l' ∷ b's' ∷ []

abbrev pub cp_name : Word
cp_name = b'c' ∷ b'p' ∷ []

abbrev pub exit_name : Word
exit_name = b'e' ∷ b'x' ∷ b'i' ∷ b't' ∷ []

-- `test.txt`
abbrev pub log_name : Word
log_name = b't' ∷ b'e' ∷ b's' ∷ b't' ∷ b'.' ∷ b't' ∷ b'x' ∷ b't' ∷ []

-- `/home`
abbrev pub home : Word
home = b'/' ∷ b'h' ∷ b'o' ∷ b'm' ∷ b'e' ∷ []

-- `-l`
abbrev pub long_option : Word
long_option = b'-' ∷ b'l' ∷ []

-- Whether the bit is set in a mode.
abbrev pub has_bit : (bit mode : ℕ) → Bool
has_bit bit mode = mode / bit % 2 == 1

-- `S_ISDIR`
abbrev pub is_dir : ℕ → Bool
is_dir mode = mode / 4096 % 16 == 4

abbrev pub flag : (letter bit mode : ℕ) → ℕ
flag letter bit mode = if has_bit bit mode then letter else b'-'

-- The ten letters before an entry.
pub mode_text : ℕ → List ℕ
mode_text mode =
    (if is_dir mode then b'd' else b'-')
    ∷ flag b'r' 256 mode
    ∷ flag b'w' 128 mode
    ∷ flag b'x' 64 mode
    ∷ flag b'r' 32 mode
    ∷ flag b'w' 16 mode
    ∷ flag b'x' 8 mode
    ∷ flag b'r' 4 mode
    ∷ flag b'w' 2 mode
    ∷ flag b'x' 1 mode
    ∷ []
