-- ===== src/Signals/SigList.antt =====
-- The list of pending signals: one entry for each receiver and signal, with its last sender.
use linux_programming.Prelude.{
  ℕ, Bool, true, false, ◌&&◌, Option, none, some, List, [], ◌∷◌, ◌++◌, ◌≡◌, refl, arith, ◌==◌,
  if◌then◌else◌, Bool-cases, inl, inr,
}

-- `struct thread_signal`
pub record Pending : Type 0 where
  pub sig : ℕ
  pub sender : ℕ
  pub receiver : ℕ

abbrev pub is_for : (receiver sig : ℕ) → Pending → Bool
is_for receiver sig x = x.receiver == receiver && x.sig == sig

-- The loop over the list: the first entry for the receiver and the signal gets the sender, and
-- whether there is one.
unfoldable pub resend : (receiver sig sender : ℕ) → List Pending → List Pending × Bool
resend receiver sig sender [] = ([], false)
resend receiver sig sender (x ∷ xs) =
    let (ys, found) = resend receiver sig sender xs in
    if is_for receiver sig x then (record x { sender = sender } ∷ xs, true) else (x ∷ ys, found)

-- The sender of the signal that is pending for a receiver.
abbrev pub sender_of : (receiver sig : ℕ) → List Pending → Option ℕ
sender_of receiver sig [] = none
sender_of receiver sig (x ∷ xs) =
    if is_for receiver sig x then some x.sender else sender_of receiver sig xs

-- No receiver has a signal pending twice.
abbrev pub OneEach : List Pending → Type 0
OneEach [] = Unit
OneEach (x ∷ xs) = (sender_of x.receiver x.sig xs ≡ none) × OneEach xs

-- The list after a signal is sent.
abbrev pub sent : (receiver sig sender : ℕ) → List Pending → List Pending
sent receiver sig sender l =
    let (l', found) = resend receiver sig sender l in
    if found then l' else l' ++ record { sig = sig; sender = sender; receiver = receiver } ∷ []

module _ (receiver sig sender : ℕ) where
  abbrev entry : Pending
  entry = record { sig = sig; sender = sender; receiver = receiver }

  resend-found :
      (l : List Pending)
      → (resend receiver sig sender l).1
        ≡ elim (sender_of receiver sig l) [ none ↦ false | some _ ↦ true ]
  unfolding resend
  resend-found [] = refl
  resend-found (x ∷ xs) = ground (arith, resend-found xs)

  -- The list after a signal is sent, by the entries.
  pub sent-cons :
      (x : Pending) (xs : List Pending)
      → sent receiver sig sender (x ∷ xs) ≡ (
          if is_for receiver sig x
          then record x { sender = sender } ∷ xs
          else x ∷ sent receiver sig sender xs)
  unfolding resend
  sent-cons x xs = ground arith

  -- The sender of each signal, once one is sent: the new one for it, and no change for the others.
  pub sender_of-sent :
      (r s : ℕ) (l : List Pending)
      → sender_of r s (sent receiver sig sender l)
        ≡ (if r == receiver && s == sig then some sender else sender_of r s l)
  unfolding resend
  sender_of-sent r s [] = ground arith
  sender_of-sent r s (x ∷ xs) = rw (sent-cons x xs) (ground (arith, sender_of-sent r s xs))

  -- Sending keeps the entries single.
  pub sent-OneEach : (l : List Pending) → OneEach l → OneEach (sent receiver sig sender l)
  unfolding resend
  sent-OneEach [] h = (refl, tt)
  sent-OneEach (x ∷ xs) h = rw (sent-cons x xs) (elim (Bool-cases (is_for receiver sig x)) [
    | inl e ↦ rw e (h.0, h.1)
    | inr e ↦
        rw e ((rw (sender_of-sent x.receiver x.sig xs) (ground (arith, h.0))), sent-OneEach xs h.1)
  ])
