-- ===== src/Prelude/Lists.antt =====
-- Lists measured and indexed by native numbers, under the library's names, and lists of pointers.
use Prim.Native.Nat.{ℕ, zero, suc, ◌+◌, ◌-◌, ◌≤◌, min}
use mathlib.Core.Path.{◌≡◌, refl, subst, sym, ap}
use mathlib.Core.Logic.{◌≢◌, inl, inr}
use mathlib.Core.Bool.{Bool, true, false}
use mathlib.Core.List.{List, [], ◌∷◌, ◌++◌}
use mathlib.Core.Option.{Option, none, some}
use native.Mathlib.Omega.{arith}
use linux_programming.Prelude.Tests.{◌==◌, if◌then◌else◌, Bool-cases}

module _ {ℓ} {A : Type ℓ} where
  abbrev pub length : List A → ℕ
  length [] = 0
  length (x ∷ xs) = suc (length xs)

  abbrev pub get_elem? : List A → ℕ → Option A
  get_elem? [] i = none
  get_elem? (x ∷ xs) zero = some x
  get_elem? (x ∷ xs) (suc i) = get_elem? xs i

  abbrev pub set : List A → ℕ → A → List A
  set [] i v = []
  set (x ∷ xs) zero v = v ∷ xs
  set (x ∷ xs) (suc i) v = x ∷ set xs i v

  abbrev pub take : ℕ → List A → List A
  take zero xs = []
  take (suc n) [] = []
  take (suc n) (x ∷ xs) = x ∷ take n xs

  abbrev pub drop : ℕ → List A → List A
  drop zero xs = xs
  drop (suc n) [] = []
  drop (suc n) (x ∷ xs) = drop n xs

  abbrev pub is_empty : List A → Bool
  is_empty [] = true
  is_empty (x ∷ xs) = false

  pub length-append : (xs ys : List A) → length (xs ++ ys) ≡ length xs + length ys
  length-append [] ys = omega arith
  length-append (x ∷ xs) ys = omega (arith, length-append xs ys)

  pub take-drop : (n : ℕ) (xs : List A) → take n xs ++ drop n xs ≡ xs
  take-drop zero xs = refl
  take-drop (suc n) [] = refl
  take-drop (suc n) (x ∷ xs) = ap (λ (l : List A). x ∷ l) (take-drop n xs)

  pub length-take : (n : ℕ) (xs : List A) → length (take n xs) ≡ min n (length xs)
  length-take zero xs = omega arith
  length-take (suc n) [] = omega arith
  length-take (suc n) (x ∷ xs) = omega (arith, length-take n xs)

  pub length-drop : (n : ℕ) (xs : List A) → length (drop n xs) ≡ length xs - n
  length-drop zero xs = omega arith
  length-drop (suc n) [] = omega arith
  length-drop (suc n) (x ∷ xs) = omega (arith, length-drop n xs)

  -- Enough of a list is all of it.
  pub take-all : (xs : List A) (n : ℕ) → length xs ≤ n → take n xs ≡ xs
  take-all [] zero h = refl
  take-all [] (suc n) h = refl
  take-all (x ∷ xs) zero h = absurd (omega arith)
  take-all (x ∷ xs) (suc n) h = ap (λ (l : List A). x ∷ l) (take-all xs n (omega arith))

  pub drop-all : (xs : List A) (n : ℕ) → length xs ≤ n → drop n xs ≡ []
  drop-all [] zero h = refl
  drop-all [] (suc n) h = refl
  drop-all (x ∷ xs) zero h = absurd (omega arith)
  drop-all (x ∷ xs) (suc n) h = drop-all xs n (omega arith)

  pub get_elem?-set :
      (l : List A) (j : ℕ) (a b : A) → get_elem? l j ≡ some a → get_elem? (set l j b) j ≡ some b
  get_elem?-set [] j a b at = absurd (cc)
  get_elem?-set (x ∷ l) zero a b at = refl
  get_elem?-set (x ∷ l) (suc j) a b at = get_elem?-set l j a b at

  pub get_elem?-set_other :
      (l : List A) (i j : ℕ) (b : A) → i ≢ j → get_elem? (set l i b) j ≡ get_elem? l j
  get_elem?-set_other [] i j b ne = refl
  get_elem?-set_other (x ∷ l) zero zero b ne = absurd (ne refl)
  get_elem?-set_other (x ∷ l) zero (suc j) b ne = refl
  get_elem?-set_other (x ∷ l) (suc i) zero b ne = refl
  get_elem?-set_other (x ∷ l) (suc i) (suc j) b ne =
      get_elem?-set_other l i j b (λ e. ne (omega (arith, e)))

  pub set-set : (l : List A) (j : ℕ) (a b : A) → set (set l j a) j b ≡ set l j b
  set-set [] j a b = refl
  set-set (x ∷ l) zero a b = refl
  set-set (x ∷ l) (suc j) a b = ap (λ (v : List A). x ∷ v) (set-set l j a b)

  pub length-set : (l : List A) (j : ℕ) (b : A) → length (set l j b) ≡ length l
  length-set [] j b = refl
  length-set (x ∷ l) zero b = refl
  length-set (x ∷ l) (suc j) b = omega (arith, length-set l j b)

  pub past_end : (l : List A) (i : ℕ) → length l ≤ i → get_elem? l i ≡ none
  past_end [] i h = refl
  past_end (x ∷ l) zero h = absurd (omega (arith, h))
  past_end (x ∷ l) (suc i) h = past_end l i (omega (arith, h))

module _ {ℓ} {A : Type ℓ} (x : A) where
  -- The element behind `xs`, and a write to it.
  pub get_elem?-middle : (xs ys : List A) → get_elem? (xs ++ x ∷ ys) (length xs) ≡ some x
  get_elem?-middle [] ys = refl
  get_elem?-middle (y ∷ xs) ys = get_elem?-middle xs ys

  pub set-middle : (v : A) (xs ys : List A) → set (xs ++ x ∷ ys) (length xs) v ≡ xs ++ v ∷ ys
  set-middle v [] ys = refl
  set-middle v (y ∷ xs) ys = ap (λ (l : List A). y ∷ l) (set-middle v xs ys)

-- A predicate on every element, by recursion.
abbrev pub All {ℓ κ} : {A : Type ℓ} → (A → Type κ) → List A → Type κ
All P [] = Unit
All P (x ∷ xs) = P x × All P xs

pub All-append {ℓ κ} :
    {A : Type ℓ} (P : A → Type κ) (xs ys : List A) → All P xs → All P ys → All P (xs ++ ys)
All-append P [] ys hx hy = hy
All-append P (x ∷ xs) ys hx hy = (hx.0, All-append P xs ys hx.1 hy)

pub All-map {ℓ κ μ} :
    {A : Type ℓ} (P : A → Type κ) (Q : A → Type μ) (xs : List A)
    → ((a : A) → P a → Q a)
    → All P xs
    → All Q xs
All-map P Q [] f h = tt
All-map P Q (x ∷ xs) f h = (f x h.0, All-map P Q xs f h.1)

pub All-at {ℓ κ} :
    {A : Type ℓ} (P : A → Type κ) (x : A) (xs ys : List A) → All P (xs ++ x ∷ ys) → P x
All-at P x [] ys h = h.0
All-at P x (y ∷ xs) ys h = All-at P x xs ys h.1

pub All-drop {ℓ κ} :
    {A : Type ℓ} (P : A → Type κ) (n : ℕ) (xs : List A) → All P xs → All P (drop n xs)
All-drop P zero xs h = h
All-drop P (suc n) [] h = tt
All-drop P (suc n) (x ∷ xs) h = All-drop P n xs h.1

-- `p` does not stand in the list.
abbrev pub Absent : ℕ → List ℕ → Type 0
Absent p = All (λ q. q ≢ p)

-- No pointer stands in the list twice.
abbrev pub Distinct : List ℕ → Type 0
Distinct [] = Unit
Distinct (x ∷ xs) = Absent x xs × Distinct xs

pub Absent-push : (p q : ℕ) (xs : List ℕ) → Absent p xs → q ≢ p → Absent p (xs ++ q ∷ [])
Absent-push p q xs h ne = All-append (λ r. r ≢ p) xs (q ∷ []) h (ne, tt)

pub Distinct-push : (p : ℕ) (xs : List ℕ) → Distinct xs → Absent p xs → Distinct (xs ++ p ∷ [])
Distinct-push p [] d a = (tt, tt)
Distinct-push p (x ∷ xs) d a = (Absent-push x p xs d.0 (λ e. a.0 (cc)), Distinct-push p xs d.1 a.1)

-- Unlinks the element that stands for `p`, as `list_remove` does.
abbrev pub remove : ℕ → List ℕ → List ℕ
remove p [] = []
remove p (x ∷ xs) = if x == p then xs else x ∷ remove p xs

pub remove-head : (p : ℕ) (xs : List ℕ) → remove p (p ∷ xs) ≡ xs
remove-head p xs = ground arith

pub All-remove {κ} : (P : ℕ → Type κ) (p : ℕ) (xs : List ℕ) → All P xs → All P (remove p xs)
All-remove P p [] h = tt
All-remove P p (x ∷ xs) h = elim (Bool-cases (x == p)) [
  | inl e ↦ rw e h.1
  | inr e ↦ rw e (h.0, All-remove P p xs h.1)
]

pub Distinct-remove : (p : ℕ) (xs : List ℕ) → Distinct xs → Distinct (remove p xs)
Distinct-remove p [] d = tt
Distinct-remove p (x ∷ xs) d = elim (Bool-cases (x == p)) [
  | inl e ↦ rw e d.1
  | inr e ↦ rw e (All-remove (λ q. q ≢ x) p xs d.0, Distinct-remove p xs d.1)
]

-- Once unlinked, a pointer of a list without repetitions is gone.
pub Absent-remove : (p : ℕ) (xs : List ℕ) → Distinct xs → Absent p (remove p xs)
Absent-remove p [] d = tt
Absent-remove p (x ∷ xs) d = elim (Bool-cases (x == p)) [
  | inl e ↦ rw e (let x-eq : x ≡ p = ground arith in subst (λ y. Absent y xs) x-eq d.0)
  | inr e ↦ rw e ((λ q. ground arith), Absent-remove p xs d.1)
]

-- A list without repetitions, taken apart at one of its elements.
pub Distinct-middle : (p : ℕ) (xs ys : List ℕ) → Distinct (xs ++ p ∷ ys) → Absent p xs × Absent p ys
Distinct-middle p [] ys d = (tt, d.0)
Distinct-middle p (x ∷ xs) ys d =
    let (ax, ay) = Distinct-middle p xs ys d.1 in
    (((λ e. All-at (λ q. q ≢ x) p xs ys d.0 (sym e)), ax), ay)

pub remove-middle : (p : ℕ) (xs ys : List ℕ) → Absent p xs → remove p (xs ++ p ∷ ys) ≡ xs ++ ys
remove-middle p [] ys a = ground arith
remove-middle p (x ∷ xs) ys a = ground (arith, remove-middle p xs ys a.1)
