-- ===== src/Shell/Builtin.antt =====
-- Command_interrupter/shell.c, the loop of `main` and its builtin commands. What the system answers is a record
-- of the calls that the shell makes, on a state of their own. `none` is a read at NULL or a write behind the
-- buffer of the line.
pub mod Session
pub mod Copies
pub mod Rounds
mod Tests
use linux_programming.Prelude.{
  ℕ, ◌^◌, zero, suc, ◌+◌, ◌/◌, ◌%◌, Bool, true, false, Option, none, some, List, [], ◌∷◌, ◌++◌,
  ◌==◌, if◌then◌else◌, ◌>>=◌, ◌>>◌, ensure, length, ltb,
}
use linux_programming.Shell.{Action, external}
use linux_programming.Shell.Text.{Word, str_eq}
use linux_programming.Shell.Lines.{words, logged_first, logged_second}
use linux_programming.Shell.Console.{
  Next, Os, Output, Stat, State, cd_name, cp_name, entry, error, exit_name, exits, flag, goes_on,
  has_bit, home, is_dir, log_name, long_option, ls_name, mkdir_name, mode_text, newline, prompt,
  pwd_name, rmdir_name, shown, text,
}
use linux_programming.Shell.Transfer.{Descriptors, transfer, rounds_of}

module _ {S : Type 0} (os : Os S) where
  abbrev print : List Output → State S → State S
  print out k = record k { output = k.output ++ out }

  -- `fopen`, `fwrite`, `fprintf` and `fclose` on the log.
  pub log : (bytes : List ℕ) → State S → Option (State S)
  log bytes k = do s ← os.append log_name bytes k.world; some (record k { world = s })

  -- `if (error == -1) perror("Error: ")`
  abbrev reported : State S → Bool × S → State S
  reported k (ok, s) = record k {
    world = s;
    output = if ok then k.output else k.output ++ error ∷ [];
  }

  -- `cd`: what `chdir("/home")` returns is not looked at.
  pub cd : (heap line : List ℕ) (second : Option Word) → State S → Option (State S)
  cd heap line second k = do
    k ← log (logged_first heap line ++ b'\n' ∷ []) k
    some (elim second [
      | none ↦ record k { world = (os.chdir home k.world).1 }
      | some dir ↦ reported k (os.chdir dir k.world)
    ])

  pub pwd : (heap line : List ℕ) (curwd : Word) → State S → Option (State S)
  pwd heap line curwd k = do
    k ← log (logged_first heap line ++ b'\n' ∷ []) k
    some (print (text curwd ∷ []) k)

  -- The two parts of the log of `mkdir` and `rmdir`, with the argument that they then use.
  pub log_two : (heap line : List ℕ) (second : Option Word) → State S → Option (Word × State S)
  log_two heap line second k = do
    k ← log (logged_first heap line ++ b'\t' ∷ []) k
    dir ← second
    k ← log (logged_second heap line ++ b'\n' ∷ []) k
    some (dir, k)

  pub mkdir : (heap line : List ℕ) (second : Option Word) → State S → Option (State S)
  mkdir heap line second k = do
    (dir, k) ← log_two heap line second k
    some (reported k (os.mkdir dir k.world))

  pub rmdir : (heap line : List ℕ) (second : Option Word) → State S → Option (State S)
  rmdir heap line second k = do
    (dir, k) ← log_two heap line second k
    some (reported k (os.rmdir dir k.world))

  abbrev pub names : List Word → List Output
  names [] = newline ∷ []
  names (w ∷ ws) = text w ∷ names ws

  -- The entries whose status is found; the two numbers are printed as an `int`, here its bit pattern.
  pub long_entries : List Word → S → List Output
  long_entries [] s = []
  long_entries (w ∷ ws) s =
      let rest = long_entries ws s in
      elim (os.stat w s) [
        | none ↦ rest
        | some t ↦
            entry (mode_text t.st_mode) (t.st_nlink % 2 ^ 32) (t.st_size % 2 ^ 32) t.st_atime w
            ∷ rest
      ]

  -- What `ls` prints of the directory, or `ls -l`; with another second word nothing. `closedir` of NULL, behind
  -- the error of `ls -l`, fails without an effect.
  pub listing : (second : Option Word) → Option (List Word) → S → List Output
  listing none none s = error ∷ []
  listing none (some ws) s = names ws
  listing (some option) none s = if str_eq option long_option then error ∷ [] else []
  listing (some option) (some ws) s =
      let long = long_entries ws s in if str_eq option long_option then long else []

  pub ls : (heap line : List ℕ) (curwd : Word) (second : Option Word) → State S → Option (State S)
  ls heap line curwd second k = do
    k ← log (logged_first heap line ++ b'\n' ∷ []) k
    some (print (listing second (os.readdir curwd k.world) k.world) k)

  -- What can be read behind `inputFd`: the file was opened before the new one was created.
  abbrev input_of : Option (List ℕ) → Option (List ℕ) → Option (List ℕ)
  input_of none now = none
  input_of (some before) now = now

  abbrev leak : Option (List ℕ) → ℕ
  leak none = 0
  leak (some l) = 1

  -- The loop, and `close(outputFd)`; the new file holds what was written to it.
  abbrev copied : (third : Option Word) → Descriptors → State S → State S
  copied third d k = record k {
    world = elim d.output [ none ↦ k.world | some out ↦ os.write third out k.world ];
    left_open = k.left_open + leak d.input;
  }

  -- The loop of `cp` on the two descriptors.
  pub copy : (third : Option Word) (d : Descriptors) → S → State S → Option (State S)
  copy third d s k = do
    d ← transfer (rounds_of d.input) (os.stored s) 0 d
    some (copied third d (record k { world = s }))

  -- `cp`, by what the `open` of the new file gave.
  abbrev pub copy_into : (second third : Option Word) → Option S → State S → Option (State S)
  copy_into second third none k =
      copy third (record { input = os.read second k.world; output = none }) k.world k
  copy_into second third (some s) k =
      copy third
        (record { input = input_of (os.read second k.world) (os.read second s); output = some [] })
        s k

  pub cp : (second third : Option Word) → State S → Option (State S)
  cp second third k = copy_into second third (os.create third k.world) k

  pub exit : (heap line : List ℕ) → State S → Option (Next S)
  exit heap line k = do k ← log (logged_first heap line ++ b'\n' ∷ []) k; some (exits k)

  abbrev on : Option (State S) → Option (Next S)
  on none = none
  on (some k) = some (goes_on k)

  abbrev head : List Word → Option Word
  head [] = none
  head (w ∷ ws) = some w

  abbrev tail : List Word → List Word
  tail [] = []
  tail (w ∷ ws) = ws

  -- The line of the words: `strcmp(first, ...)` in turn.
  pub command : (heap line : List ℕ) (curwd : Word) → List Word → State S → Option (Next S)
  command heap line curwd [] k = none
  command heap line curwd (first ∷ rest) k =
      if str_eq first cd_name
      then on (cd heap line (head rest) k)
      else if str_eq first pwd_name
      then on (pwd heap line curwd k)
      else if str_eq first mkdir_name
      then on (mkdir heap line (head rest) k)
      else if str_eq first rmdir_name
      then on (rmdir heap line (head rest) k)
      else if str_eq first ls_name
      then on (ls heap line curwd (head rest) k)
      else if str_eq first cp_name
      then on (cp (head rest) (head (tail rest)) k)
      else if str_eq first exit_name
      then exit heap line k
      else (do
        a ← external (os.arg k.world) first rest
        some (goes_on (record k { world = os.run a k.world })))

  -- A round of the loop. `gets` puts the line into `input`, of 100 bytes.
  pub round : (heap line : List ℕ) → State S → Option (Next S)
  round heap line k = do
    ensure (ltb (length line) 100)
    let (dir, curwd) = shown (os.getcwd k.world) (os.curwd k.world)
    command heap line curwd (words line) (print (prompt dir ∷ []) k)

  -- The lines in turn, up to the one that exits.
  pub session : (heap : List ℕ) → List (List ℕ) → State S → Option (Next S)
  session heap [] k = some (goes_on k)
  session heap (line ∷ lines) k = do
    n ← round heap line k
    elim n [ exits k ↦ some (exits k) | goes_on k ↦ session heap lines k ]
