-- ===== src/Shell/Background.antt =====
-- Lines whose third or a later word ends with `&`.
use linux_programming.Prelude.{
  ℕ, zero, suc, ◌+◌, ◌-◌, ◌≤◌, ◌<◌, Bool, true, false, Option, none, some, List, [], ◌∷◌, ◌++◌, ◌≡◌,
  refl, ap, sym, ◌∙◌, arith, length, length-append, drop, take, leb,
}
use mathlib.Core.List.{append_assoc}
use linux_programming.Shell.Text.{Word, amp}
use linux_programming.Shell.{
  runs, parse_rest, parse_second, parse, find, argv_of, plain, act, external,
}
use linux_programming.Shell.Parse.{entries, Foreground, any}
use linux_programming.Shell.Redirect.{is_pipe, is_redirection}

-- The words alone: no NULL is put behind them.
abbrev pub unended : List Word → List (Option Word)
unended [] = []
unended (w ∷ ws) = some w ∷ unended ws

length-unended : (ws : List Word) → length (unended ws) ≡ length ws
length-unended [] = refl
length-unended (w ∷ ws) = omega (arith, length-unended ws)

parse_rest-amp :
    (ts more : List Word) (last text : Word) (n : ℕ)
    → Foreground ts
    → amp last ≡ some text
    → parse_rest (ts ++ last ∷ more) n ≡ record {
      arg = unended (ts ++ text ∷ []);
      inputnum = some (n + length ts);
      background = true;
    }
unfolding parse_rest
parse_rest-amp [] more last text n h e = rw e (
    ap (λ (m : ℕ). record { arg = some text ∷ []; inputnum = some m; background = true })
      (omega arith))
parse_rest-amp (t ∷ ts) more last text n h e =
    rw (h.0, parse_rest-amp ts more last text (n + 1) h.1 e)
      (ap
        (λ (m : ℕ). record {
          arg = unended (t ∷ ts ++ text ∷ []);
          inputnum = some m;
          background = true;
        })
        (omega arith))

find-unended :
    (p : Word → Bool) (n : ℕ) (ws : List Word)
    → n ≤ length ws
    → any p (take n ws) ≡ false
    → find p n (unended ws) ≡ some false
unfolding find
find-unended p zero ws room h = refl
find-unended p (suc n) [] room h = absurd (omega arith)
find-unended p (suc n) (w ∷ ws) room h =
    let (other, others) : (p w ≡ false) × (any p (take n ws) ≡ false) = ground (arith, h) in
    rw (other, find-unended p n ws (omega arith) others)

take-front : (vs ws : List Word) (n : ℕ) → n ≤ length vs → take n (vs ++ ws) ≡ take n vs
take-front vs ws zero h = refl
take-front [] ws (suc n) h = absurd (omega arith)
take-front (v ∷ vs) ws (suc n) h = ap (λ (l : List Word). v ∷ l) (take-front vs ws n (omega arith))

drop-front :
    (front rest : List (Option Word)) (n : ℕ) → length front ≡ n → drop n (front ++ rest) ≡ rest
drop-front [] rest zero e = refl
drop-front [] rest (suc n) e = absurd (omega arith)
drop-front (x ∷ front) rest zero e = absurd (omega arith)
drop-front (x ∷ front) rest (suc n) e = drop-front front rest n (omega arith)

argv_of-unended :
    (ws left : List Word) (rest : List (Option Word))
    → argv_of (unended ws ++ (entries left ++ rest)) ≡ some (ws ++ left)
unfolding argv_of
argv_of-unended [] [] rest = refl
argv_of-unended [] (v ∷ left) rest = rw (argv_of-unended [] left rest)
argv_of-unended (w ∷ ws) left rest = rw (argv_of-unended ws left rest)

-- A line whose third or a later word ends with `&`, without any before it that does but the second, without `|`,
-- `<` and `>` before the last but one of these words, and with at most 50 of them: the shell does not wait, and
-- ignores the words behind. The program gets the words, the last one without its `&`, and behind them also the
-- texts that the entries of `arg` hold from before, up to the first NULL.
pub external-background :
    (first second : Word) (ts more : List Word) (last text : Word) (front rest : List (Option Word))
    (left : List Word)
    → amp first ≡ none
    → Foreground ts
    → amp last ≡ some text
    → length ts < 48
    → any is_pipe (take (length ts + 1) (first ∷ second ∷ ts)) ≡ false
    → any is_redirection (take (length ts + 1) (first ∷ second ∷ ts)) ≡ false
    → length front ≡ length ts + 3
    → external (front ++ (entries left ++ rest)) first (second ∷ (ts ++ last ∷ more))
      ≡ some (
          runs (record {
            argv = first ∷ second ∷ (ts ++ text ∷ left);
            input = none;
            output = none;
            waits = false;
          }))
unfolding external act parse parse_second plain
external-background first second ts more last text front rest left f h e small p s filled =
    let words : List Word = first ∷ second ∷ (ts ++ text ∷ []) in
    let long : length (unended words) ≡ length ts + 3 =
      length-unended words ∙ omega (arith, length-append ts (text ∷ [])) in
    let room : leb (length (unended words)) 50 ≡ true = ground (arith, long, small) in
    let inside : length ts + 1 ≤ length words = omega (arith, length-append ts (text ∷ [])) in
    let seen : take (length ts + 1) words ≡ take (length ts + 1) (first ∷ second ∷ ts) =
      take-front (first ∷ second ∷ ts) (text ∷ []) (length ts + 1) (omega arith) in
    let no_pipe : find is_pipe (2 + length ts - 1) (unended words) ≡ some false =
      ap (λ (n : ℕ). find is_pipe n (unended words)) {x = 2 + length ts - 1} {y = length ts + 1}
        (omega arith)
      ∙ find-unended is_pipe (length ts + 1) words inside (rw seen p) in
    let no_sign : find is_redirection (2 + length ts - 1) (unended words) ≡ some false =
      ap (λ (n : ℕ). find is_redirection n (unended words)) {x = 2 + length ts - 1}
        {y = length ts + 1} (omega arith)
      ∙ find-unended is_redirection (length ts + 1) words inside (rw seen s) in
    let behind : drop (length (unended words)) (front ++ (entries left ++ rest))
        ≡ entries left ++ rest =
      drop-front front (entries left ++ rest) (length (unended words)) (filled ∙ sym long) in
    rw (f, parse_rest-amp ts more last text 2 h e, room, no_pipe, no_sign, behind)
      (rw (argv_of-unended words left rest) (
        ap
          (λ (l : List Word). some (
            runs
              (record { argv = first ∷ second ∷ l; input = none; output = none; waits = false })))
          (append_assoc ts (text ∷ []) left)))
