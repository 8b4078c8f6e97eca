-- ===== src/Sigset/Tests.antt =====
-- The set operations at small sets, and each theorem at one.
use linux_programming.Prelude.{ℕ, ◌≤◌, ◌<◌, none, some, ◌≡◌, refl, arith}
use linux_programming.Prelude.Int8.{minus_one}
use linux_programming.Sig
use linux_programming.Sigset.{
  set_bit, unset_bit, check_bit, sigemptyset, sigfillset, sigaddset, sigdelset, new_mask,
}
use linux_programming.Sigset.Laws.{masked, new_mask-masked}

fills_and_empties :
    (sigfillset (some 5) ≡ (0, some 255))
    × (sigemptyset (some 5) ≡ (0, some 0))
    × (sigaddset (some 1) Sig.usr ≡ (0, some 5))
    × (sigdelset (some 5) Sig.kill ≡ (0, some 4))
    × (sigaddset none Sig.usr ≡ (0, none))
    × (sigaddset none 5 ≡ (minus_one, none))
unfolding sigfillset sigemptyset sigaddset sigdelset set_bit unset_bit
fills_and_empties = (refl, refl, refl, refl, refl, refl)

new_mask-masked_example :
    (1 ≤ 2
      → (m : ℕ) × (new_mask 1 7 (some 2) ≡ (0, m))
        × (m < 256)
        × ((c : ℕ) → c < 8 → check_bit m c ≡ masked 1 7 2 c))
    × (2 < 1 → new_mask 1 7 (some 2) ≡ (minus_one, 7))
new_mask-masked_example = new_mask-masked 7 2 (omega arith) (omega arith) 1
