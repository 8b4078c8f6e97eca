-- ===== src/Shell/Builtin/Tests.antt =====
-- The builtin commands of shell.c on a small system, and each theorem at it.
use linux_programming.Prelude.{
  ℕ, ◌%◌, true, false, ◌==◌, Option, none, some, List, [], ◌∷◌, ◌++◌, ◌≡◌, ◌≢◌, ◌||◌, inl, inr,
  arith, refl, if◌then◌else◌,
}
use linux_programming.Shell.Text.{Word, str_eq}
use linux_programming.Shell.Lines.{words, line_of, IsWord, words-line_of}
use linux_programming.Shell.Console.{
  Os, State, pwd_name, mkdir_name, exit_name, home, mode_text, is_dir, log_name,
}
use linux_programming.Shell.Builtin.{round, session}
use linux_programming.Shell.Console.Mode.{all_letters, mode_of, mode_text-mode_of}
use linux_programming.Shell.Builtin.Session.{round-faults, session-exit}
use linux_programming.Shell.Builtin.Copies.{Copies}

abbrev Files : Type 0
Files = Word → Option (List ℕ)

abbrev put_file : Word → Option (List ℕ) → Files → Files
put_file w b s v = if str_eq v w then b else s v

abbrev get_bytes : Option (List ℕ) → List ℕ
get_bytes none = []
get_bytes (some b) = b

-- A directory without subdirectories: files by their names, and directories as empty ones.
abbrev small_os : Os Files
small_os = record {
  getcwd = λ s. some home;
  curwd = λ s. home;
  arg = λ s. [];
  chdir = λ w s. (false, s);
  mkdir = λ w s. (true, put_file w (some []) s);
  rmdir = λ w s. (true, put_file w none s);
  append = λ w b s. some (put_file w (some (get_bytes (s w) ++ b)) s);
  readdir = λ w s. some [];
  stat = λ w s. none;
  read = λ o s. elim o [ none ↦ none | some w ↦ s w ];
  create = λ o s. elim o [ none ↦ none | some w ↦ some (put_file w (some []) s) ];
  stored = λ s n. 1024;
  write = λ o b s. elim o [ none ↦ s | some w ↦ put_file w (some b) s ];
  run = λ a s. s;
}

abbrev file_a : Word
file_a = b'a' ∷ []

abbrev file_b : Word
file_b = b'b' ∷ []

abbrev start : State Files
start = record {
  world = put_file file_a (some (1 ∷ 2 ∷ [])) (λ w. none);
  output = [];
  left_open = 0;
}

abbrev heap : List ℕ
heap = 33 ∷ 0 ∷ 0 ∷ 0 ∷ 0 ∷ 0 ∷ 0 ∷ 0 ∷ []

letter : (c : ℕ) → (c == b' ' || c == 0) ≡ false → (c ≢ b' ') × (c ≢ 0)
letter c h = ground (arith, h)

abbrev a_IsWord : IsWord file_a
a_IsWord = (omega arith, (letter b'a' refl, tt))

abbrev pwd_IsWord : IsWord pwd_name
pwd_IsWord = (omega arith, (letter b'p' refl, (letter b'w' refl, (letter b'd' refl, tt))))

words-line_of_example : words (line_of (pwd_name ∷ file_a ∷ [])) ≡ pwd_name ∷ file_a ∷ []
words-line_of_example = words-line_of (pwd_name ∷ file_a ∷ []) (pwd_IsWord, (a_IsWord, tt))

-- A directory that its owner alone can write.
mode_text-mode_of_example :
    (letters : List ℕ) × (mode_text 16877 ≡ (if is_dir 16877 then b'd' else b'-') ∷ letters)
    × (mode_of all_letters letters 256 ≡ some (16877 % 512))
mode_text-mode_of_example = mode_text-mode_of 16877

abbrev mkdir_IsWord : IsWord mkdir_name
mkdir_IsWord = (
  omega arith,
  (
    letter b'm' refl,
    (letter b'k' refl, (letter b'd' refl, (letter b'i' refl, (letter b'r' refl, tt)))),
  ),
)

abbrev exit_IsWord : IsWord exit_name
exit_IsWord = (
  omega arith,
  (letter b'e' refl, (letter b'x' refl, (letter b'i' refl, (letter b't' refl, tt)))),
)

round-faults_example : round small_os heap mkdir_name start ≡ none
round-faults_example =
    round-faults small_os heap mkdir_name start
      (inr (inl (words-line_of (mkdir_name ∷ []) (mkdir_IsWord, tt))))

session-exit_example :
    session small_os heap (pwd_name ∷ exit_name ∷ file_a ∷ []) start
    ≡ session small_os heap (pwd_name ∷ exit_name ∷ []) start
session-exit_example =
    session-exit small_os heap exit_name [] (words-line_of (exit_name ∷ []) (exit_IsWord, tt))
      (pwd_name ∷ []) (file_a ∷ []) start

abbrev b_IsWord : IsWord file_b
b_IsWord = (omega arith, (letter b'b' refl, tt))

-- The log of the first word, with its NUL and the second one, and that of the second one.
abbrev log_first : List ℕ
log_first = mkdir_name ++ 0 ∷ b'b' ∷ 0 ∷ b'\t' ∷ []

abbrev log_second : List ℕ
log_second = b'b' ∷ 0 ∷ 33 ∷ 0 ∷ 0 ∷ 0 ∷ 0 ∷ 0 ∷ b'\n' ∷ []

abbrev logged : Files
logged = put_file log_name (some log_first) start.world

abbrev logged_again : Files
logged_again = put_file log_name (some (log_first ++ log_second)) logged
