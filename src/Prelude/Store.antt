-- ===== src/Prelude/Store.antt =====
-- A memory of objects at addresses: `none` where no object stands.
use Prim.Native.Nat.{ℕ}
use mathlib.Core.Path.{◌≡◌}
use mathlib.Core.Logic.{◌≢◌}
use mathlib.Core.Option.{Option}
use native.Mathlib.Omega.{arith}
use linux_programming.Prelude.Tests.{◌==◌, if◌then◌else◌}

module _ {A : Type 0} where
  abbrev pub update : (ℕ → Option A) → ℕ → Option A → ℕ → Option A
  update m p v q = if p == q then v else m q

  pub update_self : (m : ℕ → Option A) (p : ℕ) (v : Option A) → update m p v p ≡ v
  update_self m p v = ground arith

  pub update_ne : (m : ℕ → Option A) (p : ℕ) (v : Option A) (q : ℕ) → q ≢ p → update m p v q ≡ m q
  update_ne m p v q ne = ground arith
