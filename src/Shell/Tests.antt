-- ===== src/Shell/Tests.antt =====
-- Command lines at concrete words: tests, and witnesses of the theorems.
use linux_programming.Prelude.{
  List, Option, Bool, true, false, none, some, [], ◌∷◌, ◌≡◌, refl, arith, All,
}
use linux_programming.Shell.Text.{Word, pipe_sign, from_sign, to_sign}
use linux_programming.Shell.{
  runs, unopened, nothing, run_loop, stores, external, act, plain, pipeline, redirect, redirected,
  find, text_at, texts, argv_of, parse, parse_second, parse_rest, fits, split,
}
use linux_programming.Shell.Parse.{any}
use linux_programming.Shell.Redirect.{Line, is_pipe, sign_of, external-with_file}
use linux_programming.Shell.TwoFiles.{external-with_files}
use linux_programming.Shell.Pipe.{Fitting, external-pipe, join, split-join}
use linux_programming.Shell.Background.{external-background}

abbrev program : Word
program = b'w' ∷ b'c' ∷ []

abbrev in_background : Word
in_background = b'w' ∷ b'c' ∷ b'&' ∷ []

abbrev option : Word
option = b'-' ∷ b'l' ∷ []

abbrev option_amp : Word
option_amp = b'-' ∷ b'l' ∷ b'&' ∷ []

abbrev first_file : Word
first_file = b'f' ∷ []

abbrev second_file : Word
second_file = b'g' ∷ []

one : (out : Bool) → Line program (sign_of out ∷ first_file ∷ [])
one true = record { foreground = (refl, (refl, (refl, tt))); room = omega arith }
one false = record { foreground = (refl, (refl, (refl, tt))); room = omega arith }

two : Line program (to_sign ∷ first_file ∷ from_sign ∷ second_file ∷ [])
two = record { foreground = (refl, (refl, (refl, (refl, (refl, tt))))); room = omega arith }

piped : Line program (pipe_sign ∷ program ∷ [])
piped = record { foreground = (refl, (refl, (refl, tt))); room = omega arith }

-- `arg` as a line of five words leaves it.
abbrev held : List (Option Word)
held = some program ∷ some option ∷ some first_file ∷ some option ∷ some second_file ∷ none ∷ []

actions :
    (external [] program []
      ≡ some (runs (record { argv = program ∷ []; input = none; output = none; waits = true })))
    × (external held in_background [] ≡ none)
    × (external held program (option_amp ∷ [])
        ≡ some (
            runs (record {
              argv = program ∷ option_amp ∷ [];
              input = none;
              output = none;
              waits = true;
            })))
    × (external [] program (option ∷ option_amp ∷ []) ≡ none)
    × (external [] program (option ∷ to_sign ∷ first_file ∷ []) ≡ some nothing)
    × (external [] to_sign [] ≡ some (unopened []))
    × (external [] program (from_sign ∷ first_file ∷ to_sign ∷ second_file ∷ [])
        ≡ some (
            runs (record {
              argv = program ∷ [];
              input = some first_file;
              output = some second_file;
              waits = true;
            })))
    × (external [] program (pipe_sign ∷ program ∷ [])
        ≡ some (stores ((program ∷ []) ∷ (program ∷ []) ∷ []) []))
unfolding external act plain pipeline redirect redirected find text_at texts argv_of parse
    parse_second parse_rest split fits run_loop
actions = (refl, refl, refl, refl, refl, refl, refl, refl)

external-with_file_example :
    external [] program (from_sign ∷ first_file ∷ [])
    ≡ some (
        runs (record { argv = program ∷ []; input = some first_file; output = none; waits = true }))
external-with_file_example = external-with_file [] false program [] first_file (one false) refl refl

external-with_files_example :
    external [] program (to_sign ∷ first_file ∷ from_sign ∷ second_file ∷ [])
    ≡ some (
        runs (record {
          argv = program ∷ [];
          input = some second_file;
          output = some second_file;
          waits = true;
        }))
external-with_files_example =
    external-with_files [] false program [] first_file second_file two refl refl

external-pipe_example :
    (Fitting ((program ∷ []) ∷ (program ∷ []) ∷ [])
      → external [] program (pipe_sign ∷ program ∷ [])
        ≡ some (stores ((program ∷ []) ∷ (program ∷ []) ∷ []) []))
    × (¬ Fitting ((program ∷ []) ∷ (program ∷ []) ∷ [])
        → external [] program (pipe_sign ∷ program ∷ []) ≡ none)
external-pipe_example =
    external-pipe [] ((program ∷ []) ∷ (program ∷ []) ∷ []) program pipe_sign (program ∷ []) refl
      (omega arith) (refl, (refl, tt)) piped refl (omega arith)

split-join_example :
    (join (split (program ∷ pipe_sign ∷ program ∷ [])) ≡ program ∷ pipe_sign ∷ program ∷ [])
    × All (λ p. any is_pipe p ≡ false) (split (program ∷ pipe_sign ∷ program ∷ []))
split-join_example = split-join (program ∷ pipe_sign ∷ program ∷ [])

-- `wc f -l&`, where `arg` still holds two more words behind these: they are arguments too.
external-background_example :
    external held program (first_file ∷ option_amp ∷ [])
    ≡ some (
        runs (record {
          argv = program ∷ first_file ∷ option ∷ option ∷ second_file ∷ [];
          input = none;
          output = none;
          waits = false;
        }))
external-background_example =
    external-background program first_file [] [] option_amp option
      (some program ∷ some option ∷ some first_file ∷ []) [] (option ∷ second_file ∷ []) refl tt
      refl (omega arith) refl refl refl
