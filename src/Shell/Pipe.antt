-- ===== src/Shell/Pipe.antt =====
-- Lines with `|`, and the programs of a pipeline.
use linux_programming.Prelude.{
  ℕ, ◌+◌, ◌≤◌, true, false, ◌&&◌, Option, none, some, List, [], ◌∷◌, ◌++◌, ◌≡◌, refl, ap, sym, ◌∙◌,
  arith, ◌>>◌, ensure, length, take, take-all, All, Bool-cases, inl, inr, leb, ltb,
}
use linux_programming.Shell.Text.{Word, str_eq, pipe_sign}
use linux_programming.Shell.{stores, external, pipeline, run_loop, split, put, fits}
use linux_programming.Shell.Parse.{any, texts-take}
use linux_programming.Shell.Redirect.{Line, is_pipe, is_redirection, external_lem}

-- The words of programs, with `|` between each two.
abbrev pub join : List (List Word) → List Word
join [] = []
join (p ∷ []) = p
join (p ∷ q ∷ ps) = p ++ pipe_sign ∷ join (q ∷ ps)

str_eq-eq : (v w : Word) → str_eq v w ≡ true → v ≡ w
str_eq-eq [] [] h = refl
str_eq-eq [] (d ∷ w) h = ground (arith, h)
str_eq-eq (c ∷ v) [] h = ground (arith, h)
str_eq-eq (c ∷ v) (d ∷ w) h = grind (arith, str_eq-eq v w, h)

-- A word in front of the first program is in front of the line.
join-put : (w : Word) (ps : List (List Word)) → join (put w ps) ≡ w ∷ join ps
join-put w [] = refl
join-put w (p ∷ []) = refl
join-put w (p ∷ q ∷ ps) = refl

join-nil : (ps : List (List Word)) → (1 ≤ length ps) → join ([] ∷ ps) ≡ pipe_sign ∷ join ps
join-nil [] h = absurd (omega arith)
join-nil (p ∷ ps) h = refl

put-length : (w : Word) (ps : List (List Word)) → 1 ≤ length (put w ps)
put-length w [] = omega arith
put-length w (p ∷ ps) = omega arith

split-some : (ws : List Word) → 1 ≤ length (split ws)
unfolding split
split-some [] = omega arith
split-some (w ∷ ws) = elim (Bool-cases (str_eq w pipe_sign)) [
  | inl e ↦ rw e (omega arith)
  | inr e ↦ rw e (put-length w (split ws))
]

-- The programs of a pipeline, with `|` between each two, are the words of the line, in order, and no word
-- of a program is `|`.
pub split-join :
    (ws : List Word) → (join (split ws) ≡ ws) × All (λ p. any is_pipe p ≡ false) (split ws)
unfolding split
split-join [] = (refl, (refl, tt))
split-join (w ∷ ws) =
    let (whole, none_left) = split-join ws in
    elim (Bool-cases (str_eq w pipe_sign)) [
      | inl e ↦ rw e (
        join-nil (split ws) (split-some ws)
            ∙ ap (λ (l : List Word). pipe_sign ∷ l) whole
            ∙ rw (sym (str_eq-eq w pipe_sign e)),
        (refl, none_left),
      )
      | inr e ↦ rw e (
        join-put w (split ws) ∙ ap (λ (l : List Word). w ∷ l) whole,
        put-pipe w (split ws) e none_left,
      )
    ]
  where
    put-pipe :
        (w : Word) (ps : List (List Word))
        → str_eq w pipe_sign ≡ false
        → All (λ p. any is_pipe p ≡ false) ps
        → All (λ p. any is_pipe p ≡ false) (put w ps)
    put-pipe w [] e h = (ground (arith, e), tt)
    put-pipe w (p ∷ ps) e h = (ground (arith, e, h.0), h.1)

-- A program without `|` comes back, and so does the rest behind the next `|`.
split-program : (p : List Word) → any is_pipe p ≡ false → split p ≡ p ∷ []
unfolding split
split-program [] h = refl
split-program (w ∷ p) h =
    let (other, others) : (str_eq w pipe_sign ≡ false) × (any is_pipe p ≡ false) =
      ground (arith, h) in
    rw (other, split-program p others)

split-next :
    (p rest : List Word) → any is_pipe p ≡ false → split (p ++ pipe_sign ∷ rest) ≡ p ∷ split rest
unfolding split
split-next [] rest h = refl
split-next (w ∷ p) rest h =
    let (other, others) : (str_eq w pipe_sign ≡ false) × (any is_pipe p ≡ false) =
      ground (arith, h) in
    rw (other, split-next p rest others)

split-of_join :
    (ps : List (List Word))
    → All (λ p. any is_pipe p ≡ false) ps
    → 1 ≤ length ps
    → split (join ps) ≡ ps
split-of_join [] h some_left = absurd (omega arith)
split-of_join (p ∷ []) h some_left = split-program p h.0
split-of_join (p ∷ q ∷ ps) h some_left =
    split-next p (join (q ∷ ps)) h.0
    ∙ ap (λ (l : List (List Word)). p ∷ l) (split-of_join (q ∷ ps) h.1 (omega arith))

-- The words of each program and the NULL behind those of each but the last stand in the 20 entries of an `argarray`.
abbrev pub Short : List (List Word) → Type 0
Short [] = Unit
Short (p ∷ []) = length p ≤ 20
Short (p ∷ q ∷ ps) = (length p + 1 ≤ 20) × Short (q ∷ ps)

-- The programs stand in `p`, of 50 entries.
abbrev pub Fitting : List (List Word) → Type 0
Fitting ps = (length ps ≤ 50) × Short ps

fits-Short : (ps : List (List Word)) → (fits ps ≡ true → Short ps) × (Short ps → fits ps ≡ true)
unfolding fits
fits-Short [] = ((λ h. tt), (λ h. refl))
fits-Short (p ∷ []) = ((λ h. ground (arith, h)), (λ h. ground (arith, h)))
fits-Short (p ∷ q ∷ ps) =
    let (to, from) = fits-Short (q ∷ ps) in
    (
      (λ h.
          let (l, r) : (ltb (length p) 20 ≡ true) × (fits (q ∷ ps) ≡ true) = ground (arith, h) in
          (ground (arith, l), to r)),
      (λ h.
          let l : ltb (length p) 20 ≡ true = let z = h.0 in ground (arith, z) in rw (l, from h.1)),
    )

fits-Fitting :
    (ps : List (List Word))
    → (Fitting ps → (leb (length ps) 50 && fits ps) ≡ true)
      × (¬ Fitting ps → (leb (length ps) 50 && fits ps) ≡ false)
fits-Fitting ps = (
  (λ h.
      let l : leb (length ps) 50 ≡ true = let z = h.0 in ground (arith, z) in
      rw (l, (fits-Short ps).1 h.1)),
  (λ no. elim (Bool-cases (leb (length ps) 50 && fits ps)) [
    | inl e ↦
        let (l, r) : (leb (length ps) 50 ≡ true) × (fits ps ≡ true) = ground (arith, e) in
        absurd (no (ground (arith, l), (fits-Short ps).0 r))
    | inr e ↦ e
  ]),
)

-- A line of at least three words that fits into `arg`, in which no word ends with `&`: it is that of the programs
-- `ps`, with `|` between each two, and one `|` stands before its last word. If the programs stand in the 50
-- arrays of 20 entries they are stored, and no child is created for any of them, as the loop over them makes no
-- round; else the line writes behind an array.
pub external-pipe :
    (old : List (Option Word)) (ps : List (List Word)) (first word : Word) (ts : List Word)
    → first ∷ word ∷ ts ≡ join ps
    → 1 ≤ length ps
    → All (λ p. any is_pipe p ≡ false) ps
    → Line first (word ∷ ts)
    → any is_pipe (take (length ts + 1) (first ∷ word ∷ ts)) ≡ true
    → 1 ≤ length ts
    → (Fitting ps → external old first (word ∷ ts) ≡ some (stores ps []))
      × (¬ Fitting ps → external old first (word ∷ ts) ≡ none)
unfolding pipeline run_loop
external-pipe old ps first word ts e some_left plain_words line h more =
    let several : ltb 2 (length ts + 2) ≡ true = ground (arith, more) in
    let words : List Word = first ∷ word ∷ ts in
    let parts : split words ≡ ps = ap split e ∙ split-of_join ps plain_words some_left in
    let run : external old first (word ∷ ts)
        ≡ (ensure (leb (length ps) 50 && fits ps) >> some (stores ps [])) =
      external_lem old first (word ∷ ts) line (length ts + 2) (omega arith) true
        (any is_redirection (take (length ts + 1) words))
        (ap (λ (n : ℕ). any is_pipe (take n words)) (omega arith) ∙ h)
        (ap (λ (n : ℕ). any is_redirection (take n words)) (omega arith)) (omega arith)
      ∙ rw
          (
            several,
            texts-take (length ts + 2) words (omega arith),
            take-all words (length ts + 2) (omega arith),
            parts,
          )
          refl in
    let (fit, unfit) = fits-Fitting ps in
    ((λ f. run ∙ rw (fit f) refl), (λ f. run ∙ rw (unfit f) refl))
