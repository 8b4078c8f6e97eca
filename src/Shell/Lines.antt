-- ===== src/Shell/Lines.antt =====
-- Command_interrupter/shell.c, how a line is cut into words: `strtok_r` with the delimiter ` ` on `inputCopy`,
-- and the bytes that stand there afterwards, up to the NUL behind the line.
pub mod Log
use linux_programming.Prelude.{
  ℕ, zero, suc, ◌+◌, ◌-◌, ◌≤◌, ◌<◌, Bool, true, false, List, [], ◌∷◌, ◌++◌, ◌≡◌, ◌≢◌, inl, inr,
  refl, ap, arith, ◌==◌, if◌then◌else◌, Bool-cases, All, length, length-append, length-take, take,
  take-all, ◌∙◌,
}
use linux_programming.Shell.Text.{Word}

-- Puts a byte in front of the first word.
abbrev pub extend : ℕ → List Word → List Word
extend c [] = (c ∷ []) ∷ []
extend c (w ∷ ws) = (c ∷ w) ∷ ws

-- The words of what is left of a line: `inside` a word, the first of them is the rest of that word.
pub words_from : (inside : Bool) → List ℕ → List Word
words_from inside [] = if inside then [] ∷ [] else []
words_from inside (c ∷ l) =
    let rest = words_from false l in
    let more = words_from true l in
    if c == b' ' then (if inside then [] ∷ rest else rest) else extend c more

pub words : List ℕ → List Word
words = words_from false

-- What stands in `inputCopy` after `n` calls of `strtok_r`: a NUL in place of the space behind each word.
pub cut : (inside : Bool) (n : ℕ) → List ℕ → List ℕ
cut inside zero l = l
cut inside (suc n) [] = []
cut inside (suc n) (c ∷ l) =
    let behind = cut false n l in
    let between = cut false (suc n) l in
    let within = cut true (suc n) l in
    if c == b' ' then (if inside then 0 ∷ behind else c ∷ between) else c ∷ within

-- The pointer to the first word: the text behind the spaces.
pub skip : List ℕ → List ℕ
skip [] = []
skip (c ∷ l) = let rest = skip l in if c == b' ' then rest else c ∷ l

-- What stands behind the first NUL.
pub behind_nul : List ℕ → List ℕ
behind_nul [] = []
behind_nul (c ∷ l) = let rest = behind_nul l in if c == 0 then l else rest

-- `sizeof(first)`
abbrev pub pointer_size : ℕ
pointer_size = 8

-- The bytes at `first` and those at `second`, if there is one, with `heap` behind `inputCopy`.
pub first_bytes : (heap line : List ℕ) → List ℕ
first_bytes heap line = skip (cut false 2 line ++ 0 ∷ heap)

pub second_bytes : (heap line : List ℕ) → List ℕ
second_bytes heap line = skip (behind_nul (first_bytes heap line))

-- `fwrite(first, 1, sizeof(first), fp)`
pub logged_first : (heap line : List ℕ) → List ℕ
logged_first heap line = take pointer_size (first_bytes heap line)

pub logged_second : (heap line : List ℕ) → List ℕ
logged_second heap line = take pointer_size (second_bytes heap line)

-- A text with neither a space nor a NUL in it.
abbrev pub Clean : Word → Type 0
Clean = All (λ c. (c ≢ b' ') × (c ≢ 0))

-- A word: not empty, and clean.
abbrev pub IsWord : Word → Type 0
IsWord w = (0 < length w) × Clean w

-- The line of the words, with a space between them.
abbrev pub line_of : List Word → List ℕ
line_of [] = []
line_of (w ∷ []) = w
line_of (w ∷ v ∷ ws) = w ++ b' ' ∷ line_of (v ∷ ws)

not_space : (c : ℕ) → c ≢ b' ' → (c == b' ') ≡ false
not_space c h = ground (arith, h)

words_from-Clean :
    (w : Word) (c : ℕ)
    → Clean (c ∷ w)
    → (inside : Bool) → (words_from inside (c ∷ w) ≡ (c ∷ w) ∷ [])
unfolding words_from
words_from-Clean [] c h inside = rw (not_space c h.0.0) refl
words_from-Clean (d ∷ w) c h inside = rw (not_space c h.0.0, words_from-Clean w d h.1 true) refl

words_from-word :
    (w : Word) (c : ℕ) (l : List ℕ)
    → Clean (c ∷ w)
    → (inside : Bool) → (words_from inside (c ∷ w ++ b' ' ∷ l) ≡ (c ∷ w) ∷ words_from false l)
unfolding words_from
words_from-word [] c l h inside = rw (not_space c h.0.0) refl
words_from-word (d ∷ w) c l h inside = rw (not_space c h.0.0, words_from-word w d l h.1 true) refl

-- Words put on a line with a space between them are what the line is cut into.
pub words-line_of : (ws : List Word) → All IsWord ws → words (line_of ws) ≡ ws
unfolding words words_from
words-line_of [] h = refl
words-line_of ([] ∷ ws) h = absurd (omega (arith, h.0.0))
words-line_of ((c ∷ w) ∷ []) h = words_from-Clean w c h.0.1 false
words-line_of ((c ∷ w) ∷ v ∷ ws) h =
    words_from-word w c (line_of (v ∷ ws)) h.0.1 false
    ∙ ap (λ (l : List Word). (c ∷ w) ∷ l) (words-line_of (v ∷ ws) h.1)
