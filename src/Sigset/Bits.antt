-- ===== src/Sigset/Bits.antt =====
-- The bits of a byte under `|`, `&` and the single-bit operations.
use Prim.Native.Nat.{bit_and, bit_or, digits, bit_and-bitwise, bit_or-bitwise, max}
use linux_programming.Prelude.{
  ℕ, zero, suc, ◌+◌, ◌*◌, ◌/◌, ◌%◌, ◌≤◌, ◌<◌, min, Bool, true, false, ◌&&◌, ◌||◌, not, ◌≡◌, refl,
  arith, ltb, ◌==◌, if◌then◌else◌, Bool-cases, inl, inr,
}
use linux_programming.Sigset.{complement, set_bit, unset_bit, check_bit}

-- A table of the values of `p` from `n - 1` down, which evaluation fills in.
tabulate : (ℕ → Bool) → ℕ → Bool
tabulate p zero = true
tabulate p (suc n) = if p n then tabulate p n else false

tabulate-at : (p : ℕ → Bool) (n : ℕ) → tabulate p n ≡ true → (x : ℕ) → x < n → p x ≡ true
unfolding tabulate
tabulate-at p zero full x less = absurd (omega arith)
tabulate-at p (suc n) full x less = elim (Bool-cases (tabulate p n)) [
  | inl rows ↦ let before = tabulate-at p n rows x in ground (arith, full, before)
  | inr rows ↦ ground (arith, full, rows)
]

abbrev same : Bool → Bool → Bool
same true b = b
same false b = not b

same-eq : (a b : Bool) → same a b ≡ true → a ≡ b
same-eq true b h = ground arith
same-eq false b h = ground arith

&&-split : (a b : Bool) → (a && b) ≡ true → (a ≡ true) × (b ≡ true)
&&-split true b h = (refl, h)
&&-split false b h = cc

-- Bit `b` of `n`.
abbrev pub bit : ℕ → ℕ → ℕ
bit n zero = n % 2
bit n (suc b) = bit (n / 2) b

check_table : tabulate (λ n. tabulate (λ b. same (check_bit n b) (bit n b == 1)) 8) 256 ≡ true
unfolding tabulate check_bit
check_table = refl

set_table :
    tabulate
      (λ n.
        tabulate
          (λ b.
            tabulate
              (λ c.
                same (check_bit (set_bit n b) c) (b == c || check_bit n c) && ltb (set_bit n b) 256)
              8)
          8)
      256
    ≡ true
unfolding tabulate check_bit set_bit
set_table = refl

unset_table :
    tabulate
      (λ n.
        tabulate
          (λ b.
            tabulate
              (λ c.
                same (check_bit (unset_bit n b) c) (not (b == c) && check_bit n c)
                && ltb (unset_bit n b) 256)
              8)
          8)
      256
    ≡ true
unfolding tabulate check_bit unset_bit
unset_table = refl

complement_table :
    tabulate (λ n. tabulate (λ c. same (check_bit (complement n) c) (not (check_bit n c))) 8) 256
    ≡ true
unfolding tabulate check_bit
complement_table = refl

empty_table : tabulate (λ c. not (check_bit 0 c)) 8 ≡ true
unfolding tabulate check_bit
empty_table = refl

pub check_bit-empty : (c : ℕ) → c < 8 → check_bit 0 c ≡ false
check_bit-empty c hc = let h = tabulate-at _ 8 empty_table c hc in ground (arith, h)

-- What the tables say, of a byte and of places below 8.
module _ (n : ℕ) (byte : n < 256) where
  pub check_bit-bit : (b : ℕ) → b < 8 → check_bit n b ≡ (bit n b == 1)
  check_bit-bit b hb = same-eq _ _ (tabulate-at _ 8 (tabulate-at _ 256 check_table n byte) b hb)

  pub check_bit-complement : (b : ℕ) → b < 8 → check_bit (complement n) b ≡ not (check_bit n b)
  check_bit-complement b hb =
      same-eq _ _ (tabulate-at _ 8 (tabulate-at _ 256 complement_table n byte) b hb)

  module _ (b c : ℕ) (hb : b < 8) (hc : c < 8) where
    set_row :
        (same (check_bit (set_bit n b) c) (b == c || check_bit n c) && ltb (set_bit n b) 256) ≡ true
    set_row = tabulate-at _ 8 (tabulate-at _ 8 (tabulate-at _ 256 set_table n byte) b hb) c hc

    unset_row :
        (same (check_bit (unset_bit n b) c) (not (b == c) && check_bit n c)
          && ltb (unset_bit n b) 256)
        ≡ true
    unset_row = tabulate-at _ 8 (tabulate-at _ 8 (tabulate-at _ 256 unset_table n byte) b hb) c hc

    pub set_bit_lem : (check_bit (set_bit n b) c ≡ (b == c || check_bit n c)) × (set_bit n b < 256)
    set_bit_lem = let (s, l) = &&-split _ _ set_row in (same-eq _ _ s, ground (arith, l))

    pub unset_bit_lem :
        (check_bit (unset_bit n b) c ≡ (not (b == c) && check_bit n c)) × (unset_bit n b < 256)
    unset_bit_lem = let (s, l) = &&-split _ _ unset_row in (same-eq _ _ s, ground (arith, l))

-- 2 to the power `k`.
abbrev width : ℕ → ℕ
width zero = 1
width (suc k) = width k * 2

-- What the operations share: `z` stands for the second number once the first has run out, and `f`
-- joins two digits.
module _ (z : ℕ → ℕ) (f : ℕ → ℕ → ℕ) (rest : (b : ℕ) → z b ≡ z (b / 2) * 2 + f 0 (b % 2))
    (join : (x y : ℕ) → x < 2 → y < 2 → f x y < 2) where
  bit-rest : (c b : ℕ) → bit (z b) c ≡ f (bit 0 c) (bit b c)
  bit-rest zero b =
      let e = rest b in let d = join 0 (b % 2) (omega arith) (omega arith) in omega arith
  bit-rest (suc c) b =
      let e = rest b in
      let d = join 0 (b % 2) (omega arith) (omega arith) in
      let half : z b / 2 ≡ z (b / 2) = omega arith in rw half (bit-rest c (b / 2))

  -- Each digit of the result, where there is fuel for the first number.
  bit-digits : (c n a b : ℕ) → a ≤ n → bit (digits z f n a b) c ≡ f (bit a c) (bit b c)
  bit-digits c zero a b enough = let done : a ≡ 0 = omega arith in rw done (bit-rest c b)
  bit-digits c (suc n) zero b enough = bit-rest c b
  bit-digits zero (suc n) (suc a) b enough =
      let d = join (suc a % 2) (b % 2) (omega arith) (omega arith) in omega arith
  bit-digits (suc c) (suc n) (suc a) b enough =
      let d = join (suc a % 2) (b % 2) (omega arith) (omega arith) in
      let half : (digits z f n (suc a / 2) (b / 2) * 2 + f (suc a % 2) (b % 2)) / 2
          ≡ digits z f n (suc a / 2) (b / 2) =
        omega arith in
      rw half (bit-digits c n (suc a / 2) (b / 2) (omega arith))

  -- The result has no more digits than the numbers.
  digits-lt :
      ((b : ℕ) → z b ≤ b)
      → (k n a b : ℕ) → a ≤ n
      → a < width k
      → b < width k
      → digits z f n a b < width k
  digits-lt below k zero a b enough ha hb = let l = below b in omega arith
  digits-lt below k (suc n) zero b enough ha hb = let l = below b in omega arith
  digits-lt below zero (suc n) (suc a) b enough ha hb = absurd (omega arith)
  digits-lt below (suc k) (suc n) (suc a) b enough ha hb =
      let d = join (suc a % 2) (b % 2) (omega arith) (omega arith) in
      let l = digits-lt below k n (suc a / 2) (b / 2) (omega arith) (omega arith) (omega arith) in
      omega arith

pub bit-or : (c a b : ℕ) → bit (bit_or a b) c ≡ max (bit a c) (bit b c)
bit-or c a b =
    rw bit_or-bitwise
      (bit-digits (λ b. b) max (λ b. omega arith) (λ x y hx hy. omega arith) c a a b (omega arith))

pub bit-and : (c a b : ℕ) → bit (bit_and a b) c ≡ min (bit a c) (bit b c)
bit-and c a b =
    rw bit_and-bitwise (
      bit-digits (λ b. zero) min (λ b. omega arith) (λ x y hx hy. omega arith) c a a b
        (omega arith))

pub bit_or-lt : (a b : ℕ) → a < 256 → b < 256 → bit_or a b < 256
bit_or-lt a b ha hb = rw bit_or-bitwise (
    digits-lt (λ b. b) max (λ b. omega arith) (λ x y hx hy. omega arith) (λ b. omega arith) 8 a a b
      (omega arith) ha hb)

pub bit_and-lt : (a b : ℕ) → a < 256 → b < 256 → bit_and a b < 256
bit_and-lt a b ha hb = rw bit_and-bitwise (
    digits-lt (λ b. zero) min (λ b. omega arith) (λ x y hx hy. omega arith) (λ b. omega arith) 8 a a
      b (omega arith) ha hb)

bit-digit : (c n : ℕ) → bit n c < 2
bit-digit zero n = omega arith
bit-digit (suc c) n = bit-digit c (n / 2)

-- The members of a union and of an intersection.
module _ (a b : ℕ) (ha : a < 256) (hb : b < 256) (c : ℕ) (hc : c < 8) where
  pub check_bit-or : check_bit (bit_or a b) c ≡ (check_bit a c || check_bit b c)
  check_bit-or =
      let (da, db) : (bit a c < 2) × (bit b c < 2) = (bit-digit c a, bit-digit c b) in
      rw
        (
          check_bit-bit (bit_or a b) (bit_or-lt a b ha hb) c hc,
          bit-or c a b,
          check_bit-bit a ha c hc,
          check_bit-bit b hb c hc,
        )
        (ground arith)

  pub check_bit-and : check_bit (bit_and a b) c ≡ (check_bit a c && check_bit b c)
  check_bit-and =
      let (da, db) : (bit a c < 2) × (bit b c < 2) = (bit-digit c a, bit-digit c b) in
      rw
        (
          check_bit-bit (bit_and a b) (bit_and-lt a b ha hb) c hc,
          bit-and c a b,
          check_bit-bit a ha c hc,
          check_bit-bit b hb c hc,
        )
        (ground arith)
