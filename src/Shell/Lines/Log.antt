-- ===== src/Shell/Lines/Log.antt =====
-- What the builtin commands of shell.c write to their log, test.txt: eight bytes for each word.
use mathlib.Core.List.{append_assoc}
use linux_programming.Prelude.{
  ℕ, zero, suc, ◌-◌, ◌≤◌, ◌<◌, Bool, true, false, List, [], ◌∷◌, ◌++◌, ◌≡◌, ◌≢◌, refl, ap, arith,
  ◌==◌, ◌∙◌, length, take,
}
use linux_programming.Shell.Text.{Word}
use linux_programming.Shell.Lines.{
  cut, skip, behind_nul, pointer_size, first_bytes, second_bytes, logged_first, logged_second,
  Clean, IsWord, line_of,
}

not_space : (c : ℕ) → c ≢ b' ' → (c == b' ') ≡ false
not_space c h = ground (arith, h)

not_nul : (c : ℕ) → c ≢ 0 → (c == 0) ≡ false
not_nul c h = ground (arith, h)

cut-Clean : (w : Word) → Clean w → (inside : Bool) (n : ℕ) → (cut inside n w ≡ w)
unfolding cut
cut-Clean [] h inside zero = refl
cut-Clean [] h inside (suc n) = refl
cut-Clean (c ∷ w) h inside zero = refl
cut-Clean (c ∷ w) h inside (suc n) = rw (not_space c h.0.0, cut-Clean w h.1 true (suc n)) refl

cut-word :
    (c : ℕ) (w : Word) (l : List ℕ)
    → Clean (c ∷ w)
    → (inside : Bool) (n : ℕ)
    → (cut inside (suc n) (c ∷ w ++ b' ' ∷ l) ≡ (c ∷ w) ++ 0 ∷ cut false n l)
unfolding cut
cut-word c [] l h inside n = rw (not_space c h.0.0) refl
cut-word c (d ∷ w) l h inside n = rw (not_space c h.0.0, cut-word d w l h.1 true n) refl

skip-word : (c : ℕ) (l : List ℕ) → c ≢ b' ' → skip (c ∷ l) ≡ c ∷ l
unfolding skip
skip-word c l h = rw (not_space c h) refl

behind_nul-word : (w : Word) (l : List ℕ) → Clean w → behind_nul (w ++ 0 ∷ l) ≡ l
unfolding behind_nul
behind_nul-word [] l h = refl
behind_nul-word (c ∷ w) l h = rw (not_nul c h.0.1) (behind_nul-word w l h.1)

take-word : (n : ℕ) (w l : List ℕ) → length w ≤ n → take n (w ++ l) ≡ w ++ take (n - length w) l
take-word zero [] l h = refl
take-word zero (c ∷ w) l h = absurd (omega (arith, h))
take-word (suc n) [] l h = let e : suc n ≡ suc n - 0 = omega arith in ap (λ (m : ℕ). take m l) e
take-word (suc n) (c ∷ w) l h =
    let e : n - length w ≡ suc n - suc (length w) = omega arith in
    ap (λ (v : List ℕ). c ∷ v) (take-word n w l (omega (arith, h)))
    ∙ ap (λ (m : ℕ). (c ∷ w) ++ take m l) e

one_word : (heap : List ℕ) (w : Word) → IsWord w → first_bytes heap w ≡ w ++ 0 ∷ heap
unfolding first_bytes
one_word heap [] h = absurd (omega (arith, h.0))
one_word heap (c ∷ w) h = rw (cut-Clean (c ∷ w) h.1 false 2) (skip-word c (w ++ 0 ∷ heap) h.1.0.0)

two_words :
    (heap : List ℕ) (w v : Word)
    → IsWord w
    → IsWord v
    → first_bytes heap (w ++ b' ' ∷ v) ≡ w ++ 0 ∷ (v ++ 0 ∷ heap)
unfolding first_bytes
two_words heap [] v h g = absurd (omega (arith, h.0))
two_words heap (c ∷ w) v h g =
    let text : cut false 2 (c ∷ w ++ b' ' ∷ v) ≡ (c ∷ w) ++ 0 ∷ v =
      cut-word c w v h.1 false 1
      ∙ ap (λ (l : List ℕ). (c ∷ w) ++ 0 ∷ l) (cut-Clean v g.1 false 1) in
    rw text (
      skip-word c ((w ++ 0 ∷ v) ++ 0 ∷ heap) h.1.0.0
      ∙ ap (λ (l : List ℕ). c ∷ l) (append_assoc w (0 ∷ v) (0 ∷ heap)))

skip-second : (heap : List ℕ) (v : Word) → IsWord v → skip (v ++ 0 ∷ heap) ≡ v ++ 0 ∷ heap
skip-second heap [] g = absurd (omega (arith, g.0))
skip-second heap (c ∷ v) g = skip-word c (v ++ 0 ∷ heap) g.1.0.0

-- For a line of one word with fewer than eight bytes, the word is logged with its NUL and with what stands
-- behind the buffer of the line.
pub logged_first-one :
    (heap : List ℕ) (w : Word)
    → IsWord w
    → length w < pointer_size
    → logged_first heap w ≡ w ++ take (pointer_size - length w) (0 ∷ heap)
unfolding logged_first
logged_first-one heap w h small =
    ap (take pointer_size) (one_word heap w h)
    ∙ take-word pointer_size w (0 ∷ heap) (omega (arith, small))

-- For a line of two words the first eight bytes from each word on are logged: with the word its NUL, for the
-- first one then the second one, and then what stands behind the buffer of the line.
pub logged-two :
    (heap : List ℕ) (w v : Word)
    → IsWord w
    → IsWord v
    → (logged_first heap (line_of (w ∷ v ∷ [])) ≡ take pointer_size (w ++ 0 ∷ (v ++ 0 ∷ heap)))
      × (logged_second heap (line_of (w ∷ v ∷ [])) ≡ take pointer_size (v ++ 0 ∷ heap))
unfolding logged_first logged_second second_bytes
logged-two heap w v h g = (
  ap (take pointer_size) (two_words heap w v h g),
  ap (take pointer_size) (
      ap (λ (l : List ℕ). skip (behind_nul l)) (two_words heap w v h g)
      ∙ ap skip (behind_nul-word w (v ++ 0 ∷ heap) h.1)
      ∙ skip-second heap v g),
)
