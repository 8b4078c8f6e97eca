-- ===== src/Sigset/Laws.antt =====
-- The set operations of signal.c, by the signals that are members of a set.
use Prim.Native.Nat.{bit_or, bit_and}
use linux_programming.Prelude.{
  ℕ, ◌≤◌, ◌<◌, Bool, true, false, ◌||◌, ◌&&◌, not, Option, some, ◌≡◌, refl, ◌∙◌, ap, inl, inr,
  arith, ltb, ◌==◌, if◌then◌else◌, Bool-cases,
}
use linux_programming.Prelude.Int8.{minus_one}
use linux_programming.Sigset.How
use linux_programming.Sigset.{
  set_bit, unset_bit, check_bit, complement, sigaddset, sigdelset, new_mask,
}
use linux_programming.Sigset.Bits.{
  set_bit_lem, unset_bit_lem, check_bit-or, check_bit-and, check_bit-complement, bit_or-lt,
  bit_and-lt,
}

-- The call succeeds, and `n` is left, a byte whose members are those that `is_member` names.
pub record Leaves (is_member : ℕ → Bool) (r : ℕ × Option ℕ) : Type 0 where
  pub status : r.0 ≡ 0
  pub set : (n : ℕ) × (r.1 ≡ some n) × (n < 256) × ((c : ℕ) → c < 8 → check_bit n c ≡ is_member c)

-- For a set that is a byte, `sigaddset` of one of the five signals adds it and no other; any other value is refused, and the
-- set is as it was.
pub sigaddset-Leaves :
    (n s : ℕ)
    → n < 256
    → (s ≤ 4 → Leaves (λ c. s == c || check_bit n c) (sigaddset (some n) s))
      × (4 < s → sigaddset (some n) s ≡ (minus_one, some n))
unfolding sigaddset
sigaddset-Leaves n s byte = (
  (λ h.
      let known : ltb 4 s ≡ false = ground arith in
      rw known (record {
        status = refl;
        set = (
          set_bit n s,
          refl,
          (set_bit_lem n byte s 0 (omega arith) (omega arith)).1,
          (λ c hc. (set_bit_lem n byte s c (omega arith) hc).0),
        );
      })),
  (λ h. let unknown : ltb 4 s ≡ true = ground arith in rw unknown),
)

-- For a set that is a byte, `sigdelset` of one of the five signals removes it and no other; any other
-- value is refused, and the set is as it was.
pub sigdelset-Leaves :
    (n s : ℕ)
    → n < 256
    → (s ≤ 4 → Leaves (λ c. not (s == c) && check_bit n c) (sigdelset (some n) s))
      × (4 < s → sigdelset (some n) s ≡ (minus_one, some n))
unfolding sigdelset
sigdelset-Leaves n s byte = (
  (λ h.
      let known : ltb 4 s ≡ false = ground arith in
      rw known (record {
        status = refl;
        set = (
          unset_bit n s,
          refl,
          (unset_bit_lem n byte s 0 (omega arith) (omega arith)).1,
          (λ c hc. (unset_bit_lem n byte s c (omega arith) hc).0),
        );
      })),
  (λ h. let unknown : ltb 4 s ≡ true = ground arith in rw unknown),
)

-- The members of the mask that `sigprocmask` leaves.
abbrev pub masked : (how mask op c : ℕ) → Bool
masked how mask op c =
    if how == How.block
    then check_bit mask c || check_bit op c
    else if how == How.unblock
    then check_bit mask c && not (check_bit op c)
    else check_bit op c

module _ (mask op : ℕ) (hm : mask < 256) (ho : op < 256) where
  complement-lt : complement op < 256
  complement-lt = omega arith

  -- With a mask and a set that are bytes, `sigprocmask` adds its members to the mask, takes them out, or replaces the mask, as
  -- `how` says, and returns 0; with any other `how` it returns -1 and leaves the mask.
  pub new_mask-masked :
      (how : ℕ)
      → (how ≤ 2
          → (m : ℕ) × (new_mask how mask (some op) ≡ (0, m))
            × (m < 256)
            × ((c : ℕ) → c < 8 → check_bit m c ≡ masked how mask op c))
        × (2 < how → new_mask how mask (some op) ≡ (minus_one, mask))
  unfolding new_mask
  new_mask-masked how = (
    (λ h. elim (Bool-cases (how == 0)) [
      | inl e ↦ rw e (bit_or mask op, refl, bit_or-lt mask op hm ho, check_bit-or mask op hm ho)
      | inr e ↦ rw e (elim (Bool-cases (how == 1)) [
        | inl f ↦ rw f (
          bit_and mask (complement op),
          refl,
          bit_and-lt mask (complement op) hm complement-lt,
          (λ c hc.
              check_bit-and mask (complement op) hm complement-lt c hc
              ∙ ap (λ b. check_bit mask c && b) (check_bit-complement op ho c hc)),
        )
        | inr f ↦
            let last : (how == 2) ≡ true = ground arith in
            rw (f, last) (op, refl, ho, (λ c hc. refl))
      ])
    ]),
    (λ h.
        let a : (how == 0) ≡ false = ground arith in
        let b : (how == 1) ≡ false = ground arith in
        let c : (how == 2) ≡ false = ground arith in rw (a, b, c)),
  )
