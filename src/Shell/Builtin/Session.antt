-- ===== src/Shell/Builtin/Session.antt =====
-- The lines of a session in turn: those that end it and those at which the shell crashes.
use linux_programming.Prelude.{
  ℕ, none, some, List, [], ◌∷◌, ◌++◌, ◌≡◌, ◌⊎◌, inl, inr, refl, Bool-cases, Option-cases, ltb,
  length,
}
use linux_programming.Shell.Text.{Word}
use linux_programming.Shell.Lines.{words, logged_first}
use linux_programming.Shell.Console.{
  Os, State, goes_on, exits, prompt, shown, mkdir_name, rmdir_name, exit_name,
}
use linux_programming.Shell.Builtin.{
  log, log_two, mkdir, rmdir, exit, command, round, session, print,
}

module _ {S : Type 0} (os : Os S) (heap line : List ℕ) (k : State S) where
  -- A round fails where its command does.
  round-none :
      ((dir curwd : Word)
        → command os heap line curwd (words line) (print os (prompt dir ∷ []) k) ≡ none)
      → round os heap line k ≡ none
  unfolding round
  round-none h =
      let (dir, curwd) = shown (os.getcwd k.world) (os.curwd k.world) in
      elim (Bool-cases (ltb (length line) 100)) [ inl f ↦ rw f (h dir curwd) | inr f ↦ rw f refl ]

  log_two-none : (k : State S) → log_two os heap line none k ≡ none
  unfolding log_two
  log_two-none k = elim (Option-cases (log os (logged_first heap line ++ b'\t' ∷ []) k)) [
    | inl n ↦ rw n refl
    | inr (k', e) ↦ rw e refl
  ]

  -- A line without words, and `mkdir` or `rmdir` without an argument, end the shell at a NULL.
  pub round-faults :
      (words line ≡ []) ⊎ ((words line ≡ mkdir_name ∷ []) ⊎ (words line ≡ rmdir_name ∷ []))
      → round os heap line k ≡ none
  unfolding command mkdir rmdir
  round-faults (inl e) = round-none (λ dir curwd. rw e refl)
  round-faults (inr (inl e)) =
      round-none (λ dir curwd. rw (e, log_two-none (print os (prompt dir ∷ []) k)) refl)
  round-faults (inr (inr e)) =
      round-none (λ dir curwd. rw (e, log_two-none (print os (prompt dir ∷ []) k)) refl)

  round-exit :
      (rest : List Word)
      → words line ≡ exit_name ∷ rest
      → (round os heap line k ≡ none) ⊎ ((k' : State S) × (round os heap line k ≡ some (exits k')))
  unfolding round command exit
  round-exit rest e =
      let (dir, curwd) = shown (os.getcwd k.world) (os.curwd k.world) in
      elim (Bool-cases (ltb (length line) 100)) [
        | inl f ↦
            elim (Option-cases
              (log os (logged_first heap line ++ b'\n' ∷ []) (print os (prompt dir ∷ []) k))) [
                | inl n ↦ inl (rw (f, e, n) refl)
                | inr (k', g) ↦ inr (k', rw (f, e, g) refl)
              ]
        | inr f ↦ inl (rw f refl)
      ]

-- Nothing that is typed behind a line with the command exit has an effect.
pub session-exit :
    {S : Type 0} (os : Os S) (heap line : List ℕ) (rest : List Word)
    → words line ≡ exit_name ∷ rest
    → (lines more : List (List ℕ)) (k : State S)
    → (session os heap (lines ++ line ∷ more) k ≡ session os heap (lines ++ line ∷ []) k)
unfolding session
session-exit os heap line rest e [] more k = elim (round-exit os heap line k rest e) [
  | inl n ↦ rw n refl
  | inr (k', f) ↦ rw f refl
]
session-exit os heap line rest e (l ∷ lines) more k = elim (Option-cases (round os heap l k)) [
  | inl n ↦ rw n refl
  | inr (exits k', f) ↦ rw f refl
  | inr (goes_on k', f) ↦ rw f (session-exit os heap line rest e lines more k')
]
