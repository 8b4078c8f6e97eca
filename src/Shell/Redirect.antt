-- ===== src/Shell/Redirect.antt =====
-- Lines with one program: alone, with one file, with two.
use linux_programming.Prelude.{
  ℕ, zero, suc, ◌+◌, ◌-◌, ◌≤◌, ◌<◌, Bool, true, false, ◌&&◌, ◌||◌, Option, none, some, List, [],
  ◌∷◌, ◌++◌, ◌≡◌, refl, ap, sym, ◌∙◌, arith, ◌==◌, if◌then◌else◌, length, length-append, take, drop,
  Bool-cases, inl, inr, leb, ltb,
}
use mathlib.Core.List.{append_assoc}
use linux_programming.Shell.Text.{Word, str_eq, pipe_sign, from_sign, to_sign}
use linux_programming.Shell.{
  runs, nothing, act, plain, redirect, redirected, other_sign, external, pipeline, text_at, texts,
}
use linux_programming.Shell.Parse.{
  entries, Foreground, any, any-append, number, parse-entries, length-entries, find-any, texts-take,
  argv_of-entries, text_at-middle, text_at-entry, take-append,
}

abbrev pub is_pipe : Word → Bool
is_pipe w = str_eq w pipe_sign

abbrev pub is_redirection : Word → Bool
is_redirection w = str_eq w from_sign || str_eq w to_sign

-- A line that is parsed whole: no word ends with `&`, and `arg` has room for the words and NULL.
pub record Line (first : Word) (ts : List Word) : Type 0 where
  pub foreground : Foreground (first ∷ ts)
  pub room : length ts < 49

any-take : (p : Word → Bool) (n : ℕ) (ws : List Word) → any p ws ≡ false → any p (take n ws) ≡ false
any-take p zero ws h = refl
any-take p (suc n) [] h = refl
any-take p (suc n) (w ∷ ws) h = ground (arith, any-take p n ws, h)

module _ (old : List (Option Word)) (first : Word) (ts : List Word) (line : Line first ts) where
  -- The decision between the three kinds of line, once the line is parsed.
  pub external_lem :
      (n : ℕ)
      → number ts ≡ n
      → (piped signs : Bool) → any is_pipe (take (n - 1) (first ∷ ts)) ≡ piped
      → any is_redirection (take (n - 1) (first ∷ ts)) ≡ signs
      → n - 1 ≤ length (first ∷ ts)
      → external old first ts ≡ (
          if piped && ltb 2 n
          then pipeline n (entries (first ∷ ts))
          else if signs
          then redirect n (entries (first ∷ ts))
          else plain false (entries (first ∷ ts) ++ drop (length (entries (first ∷ ts))) old))
  unfolding external act
  external_lem n e piped signs p s small =
      let room : leb (length (entries (first ∷ ts))) 50 ≡ true =
        let (l, r) : (length (entries (first ∷ ts)) ≡ length (first ∷ ts) + 1) × (length ts < 49) =
          (length-entries (first ∷ ts), line.room) in
        ground (arith, l, r) in
      rw (
        parse-entries first ts line.foreground,
        room,
        e,
        find-any is_pipe (n - 1) (first ∷ ts) small,
        p,
        find-any is_redirection (n - 1) (first ∷ ts) small,
        s,
      )

  number-length : number ts - 1 ≤ length (first ∷ ts)
  number-length = go ts
    where
      go : (ts : List Word) → number ts - 1 ≤ length (first ∷ ts)
      go [] = omega arith
      go (t ∷ ts) = omega arith

  -- A line that fits into `arg`, in which no word ends with `&` and none is `|`, `<` or `>`: the program runs
  -- with all the words, and the shell waits.
  pub external-runs :
      any is_pipe (first ∷ ts) ≡ false
      → any is_redirection (first ∷ ts) ≡ false
      → external old first ts
        ≡ some (runs (record { argv = first ∷ ts; input = none; output = none; waits = true }))
  unfolding plain
  external-runs p s =
      external_lem (number ts) refl false false (any-take is_pipe (number ts - 1) (first ∷ ts) p)
        (any-take is_redirection (number ts - 1) (first ∷ ts) s) number-length
      ∙ rw (argv_of-entries (first ∷ ts) (drop (length (entries (first ∷ ts))) old))

-- The sign before a file.
abbrev pub sign_of : (out : Bool) → Word
sign_of out = if out then to_sign else from_sign

pub redirect_lem :
    (out : Bool) (n : ℕ) (arg : List (Option Word))
    → text_at (n - 2) arg ≡ some (sign_of out)
    → redirect n arg ≡ redirected out n arg
unfolding redirect
redirect_lem true n arg e = rw e
redirect_lem false n arg e = rw e

-- A word of a list in which no word satisfies the test.
word_at :
    (p : Word → Bool) (ws rest : List Word) (i : ℕ)
    → i < length ws
    → any p ws ≡ false
    → (w : Word) × (text_at i (entries (ws ++ rest)) ≡ some w) × (p w ≡ false)
unfolding text_at
word_at p [] rest i less h = absurd (omega arith)
word_at p (w ∷ ws) rest zero less h = (w, refl, ground (arith, h))
word_at p (w ∷ ws) rest (suc i) less h = word_at p ws rest i (omega arith) (ground (arith, h))

no_sign : (out : Bool) (w : Word) → is_redirection w ≡ false → str_eq w (other_sign out) ≡ false
no_sign true w h = ground (arith, h)
no_sign false w h = ground (arith, h)

pub not_pipe : (out : Bool) → is_pipe (sign_of out) ≡ false
not_pipe true = refl
not_pipe false = refl

pub is_sign : (out : Bool) → is_redirection (sign_of out) ≡ true
is_sign true = refl
is_sign false = refl

module _ (old : List (Option Word)) (out : Bool) (first : Word) (args : List Word)
    (file : Word) where
  abbrev argv : List Word
  argv = first ∷ args

  module _ (line : Line first (args ++ sign_of out ∷ file ∷ [])) (p : any is_pipe argv ≡ false)
      (s : any is_redirection argv ≡ false) where
    abbrev n : ℕ
    n = length args + 3

    counted : number (args ++ sign_of out ∷ file ∷ []) ≡ n
    counted = go args
      where
        go : (args : List Word) → number (args ++ sign_of out ∷ file ∷ []) ≡ length args + 3
        go [] = omega arith
        go (a ∷ args) = omega (arith, length-append args (sign_of out ∷ file ∷ []))

    seen : take (n - 1) (argv ++ sign_of out ∷ file ∷ []) ≡ argv ++ sign_of out ∷ []
    seen = rw (sym (append_assoc argv (sign_of out ∷ []) (file ∷ []))) (
        take-append (argv ++ sign_of out ∷ []) (file ∷ []) (n - 1)
          (omega (arith, length-append args (sign_of out ∷ []))))

    last_lem : text_at (n - 1) (entries (argv ++ sign_of out ∷ file ∷ [])) ≡ some file
    last_lem =
        ap (λ (l : List Word). text_at (n - 1) (entries (first ∷ l)))
          (sym (append_assoc args (sign_of out ∷ []) (file ∷ [])))
        ∙ text_at-middle (argv ++ sign_of out ∷ []) file [] (n - 1)
            (omega (arith, length-append args (sign_of out ∷ [])))

    redirected_lem :
        redirected out n (entries (argv ++ sign_of out ∷ file ∷ []))
        ≡ some (
            if length argv == 2
            then nothing
            else runs (record {
              argv = argv;
              input = if out then none else some file;
              output = if out then some file else none;
              waits = true;
            }))
    unfolding redirected
    redirected_lem =
        let words : texts (n - 2) (entries (argv ++ sign_of out ∷ file ∷ [])) ≡ some argv =
          texts-take (n - 2) (argv ++ sign_of out ∷ file ∷ [])
            (omega (arith, length-append args (sign_of out ∷ file ∷ [])))
          ∙ ap some (take-append argv (sign_of out ∷ file ∷ []) (n - 2) (omega arith)) in
        rw (text_at-entry (n - 1) (entries (argv ++ sign_of out ∷ file ∷ [])) file last_lem)
          (elim (Bool-cases (ltb n 4)) [
            | inl few ↦
                let other : (length argv == 2) ≡ false = ground (arith, few) in
                rw (few, words, other)
            | inr many ↦
                let (w, at, plain_word) =
                  word_at is_redirection argv (sign_of out ∷ file ∷ []) (n - 4)
                    (ground (arith, many)) s in
                let no_other = no_sign out w plain_word in
                rw (many, at, no_other)
                  (elim (Bool-cases (ltb 4 n)) [
                    | inl more ↦
                        let other : (length argv == 2) ≡ false = ground (arith, more) in
                        rw (more, words, other)
                    | inr same ↦
                        let two : (length argv == 2) ≡ true = ground (arith, same, many) in
                        rw (same, two)
                  ])
          ])

    -- A line that fits into `arg`, in which no word ends with `&`, with `>` or `<` before its last word and no
    -- sign before that: the program runs with the words before the sign and the last word as the file for
    -- its output or its input, and the shell waits, unless it has exactly one argument: then nothing runs.
    pub external-with_file :
        external old first (args ++ sign_of out ∷ file ∷ [])
        ≡ some (
            if length argv == 2
            then nothing
            else runs (record {
              argv = argv;
              input = if out then none else some file;
              output = if out then some file else none;
              waits = true;
            }))
    external-with_file =
        external_lem old first (args ++ sign_of out ∷ file ∷ []) line n counted false true
          (rw (seen, any-append is_pipe argv (sign_of out ∷ []), p, not_pipe out))
          (rw (seen, any-append is_redirection argv (sign_of out ∷ []), s, is_sign out))
          (omega (arith, length-append args (sign_of out ∷ file ∷ [])))
        ∙ redirect_lem out n (entries (argv ++ sign_of out ∷ file ∷ []))
            (text_at-middle argv (sign_of out) (file ∷ []) (n - 2) (omega arith))
        ∙ redirected_lem
