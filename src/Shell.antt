-- ===== src/Shell.antt =====
-- Command_interrupter/shell.c, from the words of a command line to the program that is run: what is not a
-- builtin command. `strtok_r` cuts the line into its words, which are not empty; a word is the list of its
-- bytes. An entry of `arg` is a word or NULL; `old` is what `arg` held before, which still stands behind the entries
-- that a line writes. `none` is a read of the unset `inputnum` or behind `arg`, a NULL where a text is read, or a
-- write behind an array.
pub mod Text
pub mod Lines
pub mod Transfer
pub mod Parse
pub mod Redirect
pub mod TwoFiles
pub mod Pipe
pub mod Background
pub mod Console
pub mod Builtin
mod Tests
use linux_programming.Prelude.Int.{ℤ, pos, ◌-ℤ◌, is_negative}
use Text.{Word, pipe_sign, from_sign, to_sign, str_eq, amp}
use linux_programming.Prelude.{
  ℕ, zero, suc, ◌+◌, ◌-◌, Bool, true, false, not, ◌&&◌, ◌||◌, Option, none, some, List, [], ◌∷◌,
  ◌==◌, if◌then◌else◌, ◌>>=◌, ◌>>◌, ensure, get_elem?, length, drop, ◌++◌, ltb, leb,
}

-- `arg`, `inputnum` and `background` once the line is parsed.
pub record Parsed : Type 0 where
  pub arg : List (Option Word)
  pub inputnum : Option ℕ
  pub background : Bool

-- The entries from a word on: those behind it, or none where it ends with `&`, which `amp` takes off.
abbrev pub add : Word → ℕ → Parsed → Option Word → Parsed
add t n r none = record r { arg = some t ∷ r.arg }
add t n r (some t') = record { arg = some t' ∷ []; inputnum = some n; background = true }

-- The `do` loop over the words behind the second; `n` is `inputnum`.
pub parse_rest : List Word → ℕ → Parsed
parse_rest [] n = record { arg = none ∷ []; inputnum = some n; background = false }
parse_rest (t ∷ ts) n = let r = parse_rest ts (n + 1) in add t n r (amp t)

pub parse_second : Word → List Word → Parsed
parse_second first [] = record {
  arg = some first ∷ none ∷ [];
  inputnum = some 2;
  background = false;
}
parse_second first (second ∷ ts) =
    let r = parse_rest ts 2 in record r { arg = some first ∷ some second ∷ r.arg }

-- The line by its first word: with `&`, `inputnum` stays unset.
abbrev pub start : Parsed → Option Word → Parsed
start r none = r
start r (some first) = record { arg = some first ∷ none ∷ []; inputnum = none; background = true }

pub parse : Word → List Word → Parsed
parse first ts = start (parse_second first ts) (amp first)

-- Some word of the first `n` entries satisfies the test.
pub find : (Word → Bool) → ℕ → List (Option Word) → Option Bool
find p zero l = some false
find p (suc n) [] = none
find p (suc n) (none ∷ l) = none
find p (suc n) (some w ∷ l) = let rest = find p n l in if p w then some true else rest

-- `strcmp(arg[i], ...)` and the like: the text at `i`.
pub text_at : ℕ → List (Option Word) → Option Word
text_at i l = do e ← get_elem? l i; e

-- The first `n` texts.
pub texts : ℕ → List (Option Word) → Option (List Word)
texts zero l = some []
texts (suc n) [] = none
texts (suc n) (none ∷ l) = none
texts (suc n) (some w ∷ l) = do ws ← texts n l; some (w ∷ ws)

-- What `execvp` reads: the texts up to the first NULL.
pub argv_of : List (Option Word) → Option (List Word)
argv_of [] = none
argv_of (none ∷ l) = some []
argv_of (some w ∷ l) = do ws ← argv_of l; some (w ∷ ws)

-- A program that is run, with the files for its standard input and output, and whether the shell waits.
pub record Exec : Type 0 where
  pub argv : List Word
  pub input : Option Word
  pub output : Option Word
  pub waits : Bool

-- What the shell does with a line: it runs a program, or one that has a NULL for the name of a file, which its
-- child cannot open, or none. Or it stores the programs of a pipeline and creates a child for each of the `forked`
-- ones; where there is none it then waits for a `pid` that was never set.
pub data Action : Type 0 where
  runs : Exec → Action
  unopened : (argv : List Word) → Action
  nothing : Action
  stores : (programs : List (List Word)) (forked : List ℤ) → Action

-- Puts a word in front of the first of the programs.
abbrev pub put : Word → List (List Word) → List (List Word)
put w [] = (w ∷ []) ∷ []
put w (p ∷ ps) = (w ∷ p) ∷ ps

-- The loop that stores the arguments of each program of a pipeline.
pub split : List Word → List (List Word)
split [] = [] ∷ []
split (w ∷ ws) = let rest = split ws in if str_eq w pipe_sign then [] ∷ rest else put w rest

-- The programs and the NULLs between them fit into `p`, of 50 times 20 entries.
pub fits : List (List Word) → Bool
fits [] = true
fits (p ∷ []) = leb (length p) 20
fits (p ∷ q ∷ ps) = ltb (length p) 20 && fits (q ∷ ps)

-- The signs, which the loop counts in `yespipes`.
abbrev pub signs : List Word → ℕ
signs [] = 0
signs (w ∷ ws) = (if str_eq w pipe_sign then 1 else 0) + signs ws

-- The loop that runs the programs, from `i` on while `i < 0`, downwards: those for which it creates a child. `none`
-- is a loop of more rounds than its fuel.
pub run_loop : (fuel : ℕ) → ℤ → Option (List ℤ)
run_loop zero i = none
run_loop (suc fuel) i =
    let rest = run_loop fuel (i -ℤ pos 1) in
    if is_negative i then (do l ← rest; some (i ∷ l)) else some []

-- One round of fuel is enough, as the loop starts at `yespipes`.
pub pipeline : ℕ → List (Option Word) → Option Action
pipeline n arg = do
  ws ← texts n arg
  ensure (leb (length (split ws)) 50 && fits (split ws))
  forked ← run_loop 1 (pos (signs ws))
  some (stores (split ws) forked)

-- The sign of the other redirection.
abbrev pub other_sign : (out : Bool) → Word
other_sign out = if out then from_sign else to_sign

-- A program with one file, for its output or its input.
abbrev pub with_file : (out : Bool) → List Word → Word → Exec
with_file out argv file = record {
  argv = argv;
  input = if out then none else some file;
  output = if out then some file else none;
  waits = true;
}

-- A program with two signs before its last two files: `last` is the last argument, and `before` stands
-- between the signs.
abbrev pub with_files : (out : Bool) → List Word → (before last : Word) → Exec
with_files out argv before last = record {
  argv = argv;
  input = some (if out then before else last);
  output = some last;
  waits = true;
}

-- The same where the name of a file may be NULL.
abbrev pub named_file : (out : Bool) → List Word → Option Word → Action
named_file out argv none = unopened argv
named_file out argv (some file) = runs (with_file out argv file)

abbrev pub named_files : (out : Bool) → List Word → (before last : Option Word) → Action
named_files out argv none last = unopened argv
named_files out argv (some before) none = unopened argv
named_files out argv (some before) (some last) = runs (with_files out argv before last)

-- A line of `n` words with a sign before the last one: `>` if `out`, else `<`.
pub redirected : (out : Bool) (n : ℕ) → List (Option Word) → Option Action
redirected out n arg = do
  last ← get_elem? arg (n - 1)
  if ltb n 4 then (do argv ← texts (n - 2) arg; some (named_file out argv last)) else (do
    sign ← text_at (n - 4) arg
    if not (str_eq sign (other_sign out)) && ltb 4 n
        then (do argv ← texts (n - 2) arg; some (named_file out argv last))
        else if str_eq sign (other_sign out)
        then (do
          argv ← texts (n - 4) arg
          before ← get_elem? arg (n - 3)
          some (named_files out argv before last))
        else some nothing)

-- A line with a redirection sign somewhere.
pub redirect : ℕ → List (Option Word) → Option Action
redirect n arg = do
  sign ← text_at (n - 2) arg
  if str_eq sign to_sign
      then redirected true n arg
      else if str_eq sign from_sign
      then redirected false n arg
      else some nothing

-- The program alone, with what `execvp` reads in `arg`.
pub plain : (background : Bool) → List (Option Word) → Option Action
plain background arg = do
  argv ← argv_of arg
  some (runs (record { argv = argv; input = none; output = none; waits = not background }))

-- What follows the parsing of a line that is not a builtin command; `arg` has 50 entries.
pub act : (old : List (Option Word)) → Parsed → Option Action
act old r = do
  ensure (leb (length r.arg) 50)
  n ← r.inputnum
  piped ← find (λ w. str_eq w pipe_sign) (n - 1) r.arg
  if piped && ltb 2 n then pipeline n r.arg else (do
    signs ← find (λ w. str_eq w from_sign || str_eq w to_sign) (n - 1) r.arg
    if signs then redirect n r.arg else plain r.background (r.arg ++ drop (length r.arg) old))

-- A line of at least one word that is not a builtin command.
pub external : (old : List (Option Word)) → Word → List Word → Option Action
external old first ts = act old (parse first ts)
