-- ===== src/Shell/Parse.antt =====
-- What the parsing leaves in `arg`, and what the loops over it see.
use linux_programming.Prelude.{
  ℕ, zero, suc, ◌+◌, ◌≤◌, Bool, false, ◌||◌, Option, none, some, List, [], ◌∷◌, ◌++◌, ◌≡◌, refl, ap,
  arith, inl, inr, Option-cases, ◌∙◌, ◌>>=◌, get_elem?, length, take, All,
}
use linux_programming.Shell.Text.{Word, amp}
use linux_programming.Shell.{parse_rest, parse_second, parse, find, text_at, texts, argv_of}

-- The words, and the NULL behind them.
abbrev pub entries : List Word → List (Option Word)
entries [] = none ∷ []
entries (w ∷ ws) = some w ∷ entries ws

-- No word ends with `&`.
abbrev pub Foreground : List Word → Type 0
Foreground = All (λ w. amp w ≡ none)

abbrev pub any : (Word → Bool) → List Word → Bool
any p [] = false
any p (w ∷ ws) = p w || any p ws

pub any-append : (p : Word → Bool) (vs ws : List Word) → any p (vs ++ ws) ≡ (any p vs || any p ws)
any-append p [] ws = refl
any-append p (v ∷ vs) ws = ground (arith, any-append p vs ws)

parse_rest-entries :
    (ts : List Word) (n : ℕ)
    → Foreground ts
    → parse_rest ts n
      ≡ record { arg = entries ts; inputnum = some (n + length ts); background = false }
unfolding parse_rest
parse_rest-entries [] n h =
    ap (λ (m : ℕ). record { arg = none ∷ []; inputnum = some m; background = false }) (omega arith)
parse_rest-entries (t ∷ ts) n h =
    rw (h.0, parse_rest-entries ts (n + 1) h.1)
      (ap (λ (m : ℕ). record { arg = entries (t ∷ ts); inputnum = some m; background = false })
        (omega arith))

-- A line of one word counts as two.
abbrev pub number : List Word → ℕ
number [] = 2
number (t ∷ ts) = length (t ∷ ts) + 1

pub parse-entries :
    (first : Word) (ts : List Word)
    → Foreground (first ∷ ts)
    → parse first ts
      ≡ record { arg = entries (first ∷ ts); inputnum = some (number ts); background = false }
unfolding parse parse_second
parse-entries first [] h = rw (h.0)
parse-entries first (t ∷ ts) h =
    rw (h.0, parse_rest-entries ts 2 h.1.1)
      (ap
        (λ (m : ℕ). record {
          arg = entries (first ∷ t ∷ ts);
          inputnum = some m;
          background = false;
        })
        (omega arith))

pub length-entries : (ws : List Word) → length (entries ws) ≡ length ws + 1
length-entries [] = omega arith
length-entries (w ∷ ws) = omega (arith, length-entries ws)

pub find-any :
    (p : Word → Bool) (n : ℕ) (ws : List Word)
    → n ≤ length ws
    → find p n (entries ws) ≡ some (any p (take n ws))
unfolding find
find-any p zero ws h = refl
find-any p (suc n) [] h = absurd (omega arith)
find-any p (suc n) (w ∷ ws) h = rw (find-any p n ws (omega arith)) (ground arith)

pub texts-take : (n : ℕ) (ws : List Word) → n ≤ length ws → texts n (entries ws) ≡ some (take n ws)
unfolding texts
texts-take zero ws h = refl
texts-take (suc n) [] h = absurd (omega arith)
texts-take (suc n) (w ∷ ws) h = rw (texts-take n ws (omega arith))

pub argv_of-entries :
    (ws : List Word) (rest : List (Option Word)) → argv_of (entries ws ++ rest) ≡ some ws
unfolding argv_of
argv_of-entries [] rest = refl
argv_of-entries (w ∷ ws) rest = rw (argv_of-entries ws rest)

-- A text is an entry.
pub text_at-entry :
    (i : ℕ) (l : List (Option Word)) (w : Word)
    → text_at i l ≡ some w
    → get_elem? l i ≡ some (some w)
unfolding text_at
text_at-entry i l w h = elim (Option-cases (get_elem? l i)) [
  | inl e ↦ absurd (let z = rw e at h in cc)
  | inr (none, e) ↦ absurd (let z = rw e at h in cc)
  | inr (some v, e) ↦ let z : some v ≡ some w = rw e at h in e ∙ ap some z
]

pub text_at-middle :
    (vs : List Word) (w : Word) (ws : List Word) (i : ℕ)
    → length vs ≡ i
    → text_at i (entries (vs ++ w ∷ ws)) ≡ some w
unfolding text_at
text_at-middle vs w ws i e = rw (← e) (go vs)
  where
    go : (vs : List Word) → (get_elem? (entries (vs ++ w ∷ ws)) (length vs) >>= λ e. e) ≡ some w
    go [] = refl
    go (v ∷ vs) = go vs

pub take-append : (vs ws : List Word) (n : ℕ) → length vs ≡ n → take n (vs ++ ws) ≡ vs
take-append [] ws zero e = refl
take-append [] ws (suc n) e = absurd (omega arith)
take-append (v ∷ vs) ws zero e = absurd (omega arith)
take-append (v ∷ vs) ws (suc n) e =
    ap (λ (l : List Word). v ∷ l) (take-append vs ws n (omega arith))
