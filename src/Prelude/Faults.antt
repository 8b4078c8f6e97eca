-- ===== src/Prelude/Faults.antt =====
-- Code that may stop at a failed ASSERT or a wild access: `none` is that fault.
use mathlib.Core.Path.{◌≡◌, refl, subst}
use mathlib.Core.Bool.{Bool, true, false}
use mathlib.Core.Option.{Option, none, some}

infixl 5 ◌>>=◌ ◌>>◌
abbrev pub ◌>>=◌ {ℓ κ} : {A : Type ℓ} {B : Type κ} → Option A → (A → Option B) → Option B
none >>= f = none
some a >>= f = f a

abbrev pub ◌>>◌ {ℓ} : {B : Type ℓ} → Option (Unit {0}) → Option B → Option B
m >> k = m >>= λ _. k

-- `ASSERT (b)`.
abbrev pub ensure : Bool → Option (Unit {0})
ensure true = some tt
ensure false = none

-- The code returns, and its result satisfies `P`: total correctness.
abbrev pub Returns {ℓ} : {A : Type ℓ} → Option A → (A → Type 0) → Type 0
Returns none P = ⊥
Returns (some a) P = P a

pub Returns-bind {ℓ κ} :
    {A : Type ℓ} {B : Type κ} (P : A → Type 0) (Q : B → Type 0) (m : Option A) (f : A → Option B)
    → Returns m P
    → ((a : A) → P a → Returns (f a) Q)
    → Returns (m >>= f) Q
Returns-bind P Q none f h k = absurd h
Returns-bind P Q (some a) f h k = k a h

pub Returns-map {ℓ} :
    {A : Type ℓ} (P Q : A → Type 0) (m : Option A)
    → Returns m P
    → ((a : A) → P a → Q a)
    → Returns m Q
Returns-map P Q none h k = absurd h
Returns-map P Q (some a) h k = k a h

pub Returns-value {ℓ} :
    {A : Type ℓ} (P : A → Type 0) (m : Option A) → Returns m P → (a : A) × (m ≡ some a) × P a
Returns-value P none h = absurd h
Returns-value P (some a) h = (a, refl, h)

-- Where the code gets to a result, it satisfies `P`.
abbrev pub Leads {ℓ} : {A : Type ℓ} → (A → Type 0) → Option A → Type 0
Leads P none = Unit
Leads P (some a) = P a

pub Leads-value {ℓ} :
    {A : Type ℓ} (P : A → Type 0) (m : Option A) (a : A) → Leads P m → m ≡ some a → P a
Leads-value P m a h e = subst (Leads P) e h

pub Leads-map {ℓ} :
    {A : Type ℓ} (P Q : A → Type 0) (m : Option A) → Leads P m → ((a : A) → P a → Q a) → Leads Q m
Leads-map P Q none h k = tt
Leads-map P Q (some a) h k = k a h
