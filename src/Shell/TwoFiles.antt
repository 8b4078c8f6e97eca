-- ===== src/Shell/TwoFiles.antt =====
-- Lines with a program and two files, one for its input and one for its output.
use linux_programming.Prelude.{
  ℕ, ◌+◌, ◌-◌, Bool, true, false, ◌||◌, Option, some, List, [], ◌∷◌, ◌++◌, ◌≡◌, refl, ap, sym, ◌∙◌,
  arith, length, length-append, take, ltb, if◌then◌else◌,
}
use mathlib.Core.List.{append_assoc}
use linux_programming.Shell.Text.{Word, str_eq}
use linux_programming.Shell.{runs, redirected, other_sign, external, text_at, texts}
use linux_programming.Shell.Parse.{
  entries, any, any-append, number, text_at-entry, texts-take, text_at-middle, take-append,
}
use linux_programming.Shell.Redirect.{
  Line, is_pipe, is_redirection, external_lem, sign_of, redirect_lem, not_pipe, is_sign,
}

other-pipe : (out : Bool) → is_pipe (other_sign out) ≡ false
other-pipe true = refl
other-pipe false = refl

other-is : (out : Bool) → str_eq (other_sign out) (other_sign out) ≡ true
other-is true = refl
other-is false = refl

or-true : (a b c : Bool) → (a || (b || (c || (true || false)))) ≡ true
or-true a b c = ground arith

module _ (old : List (Option Word)) (out : Bool) (first : Word) (args : List Word)
    (before last : Word) where
  abbrev pub words_behind : List Word
  words_behind = args ++ other_sign out ∷ before ∷ sign_of out ∷ last ∷ []

  module _ (line : Line first words_behind) (p : any is_pipe (first ∷ args) ≡ false)
      (q : is_pipe before ≡ false) where
    abbrev n : ℕ
    n = length args + 5

    counted : number words_behind ≡ n
    counted = go args
      where
        go :
            (args : List Word)
            → number (args ++ other_sign out ∷ before ∷ sign_of out ∷ last ∷ []) ≡ length args + 5
        go [] = omega arith
        go (a ∷ args) =
            omega (arith, length-append args (other_sign out ∷ before ∷ sign_of out ∷ last ∷ []))

    -- The entry behind some of the last four words.
    behind :
        (vs : List Word) (w : Word) (ws : List Word) (i : ℕ)
        → length args + 1 + length vs ≡ i
        → other_sign out ∷ before ∷ sign_of out ∷ last ∷ [] ≡ vs ++ w ∷ ws
        → text_at i (entries (first ∷ words_behind)) ≡ some w
    behind vs w ws i e parts =
        ap (λ (l : List Word). text_at i (entries (first ∷ l)))
          (ap (λ (l : List Word). args ++ l) parts ∙ sym (append_assoc args vs (w ∷ ws)))
        ∙ text_at-middle (first ∷ args ++ vs) w ws i (omega (arith, length-append args vs))

    seen :
        take (n - 1) (first ∷ words_behind)
        ≡ first ∷ args ++ other_sign out ∷ before ∷ sign_of out ∷ []
    seen =
        ap (λ (l : List Word). take (n - 1) (first ∷ l))
          (sym (append_assoc args (other_sign out ∷ before ∷ sign_of out ∷ []) (last ∷ [])))
        ∙ take-append (first ∷ args ++ other_sign out ∷ before ∷ sign_of out ∷ []) (last ∷ [])
            (n - 1) (omega (arith, length-append args (other_sign out ∷ before ∷ sign_of out ∷ [])))

    redirected_lem :
        redirected out n (entries (first ∷ words_behind))
        ≡ some (
            runs (record {
              argv = first ∷ args;
              input = some (if out then before else last);
              output = some last;
              waits = true;
            }))
    unfolding redirected
    redirected_lem =
        let many : ltb n 4 ≡ false = ground arith in
        let words : texts (n - 4) (entries (first ∷ words_behind)) ≡ some (first ∷ args) =
          texts-take (n - 4) (first ∷ words_behind)
            (omega (arith, length-append args (other_sign out ∷ before ∷ sign_of out ∷ last ∷ [])))
          ∙ ap some (
              take-append (first ∷ args) (other_sign out ∷ before ∷ sign_of out ∷ last ∷ []) (n - 4)
                (omega arith)) in
        rw (
          text_at-entry (n - 1) (entries (first ∷ words_behind)) last (
              behind (other_sign out ∷ before ∷ sign_of out ∷ []) last [] (n - 1) (omega arith)
                refl),
          many,
          behind [] (other_sign out) (before ∷ sign_of out ∷ last ∷ []) (n - 4) (omega arith) refl,
          other-is out,
          words,
          text_at-entry (n - 3) (entries (first ∷ words_behind)) before (
              behind (other_sign out ∷ []) before (sign_of out ∷ last ∷ []) (n - 3) (omega arith)
                refl),
        )

    -- A line that fits into `arg`, in which no word ends with `&`, with two opposite redirections as its last
    -- four words and no `|` before the second sign: the program runs with the words before the first one,
    -- and the shell waits. With `<` before `>` it reads the first file and writes the second one; with `>` before
    -- `<` it reads and writes the second one.
    pub external-with_files :
        external old first words_behind
        ≡ some (
            runs (record {
              argv = first ∷ args;
              input = some (if out then before else last);
              output = some last;
              waits = true;
            }))
    external-with_files =
        external_lem old first words_behind line n counted false true
          (rw (
            seen,
            any-append is_pipe (first ∷ args) (other_sign out ∷ before ∷ sign_of out ∷ []),
            p,
            other-pipe out,
            q,
            not_pipe out,
          ))
          (rw
            (
              seen,
              any-append is_redirection (first ∷ args) (other_sign out ∷ before ∷ sign_of out ∷ []),
              is_sign out,
            )
            (or-true (any is_redirection (first ∷ args)) (is_redirection (other_sign out))
              (is_redirection before)))
          (omega (arith, length-append args (other_sign out ∷ before ∷ sign_of out ∷ last ∷ [])))
        ∙ redirect_lem out n (entries (first ∷ words_behind)) (
            behind (other_sign out ∷ before ∷ []) (sign_of out) (last ∷ []) (n - 2) (omega arith)
              refl)
        ∙ redirected_lem
