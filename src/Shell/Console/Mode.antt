-- ===== src/Shell/Console/Mode.antt =====
-- The ten letters that `ls -l` of shell.c prints before an entry, read back.
use linux_programming.Prelude.{
  ℕ, ◌+◌, ◌*◌, ◌/◌, ◌%◌, ◌<◌, Bool, true, false, Option, none, some, List, All, [], ◌∷◌, ◌≡◌, refl,
  ap, ◌∙◌, arith, ◌==◌, if◌then◌else◌, ◌⊎◌, inl, inr,
}
use linux_programming.Shell.Console.{is_dir, flag, mode_text}

-- The value of letters behind one that is as expected, or `-`.
abbrev pub letter_of : (as_expected dash : Bool) (bit : ℕ) → Option ℕ → Option ℕ
letter_of as_expected dash bit none = none
letter_of true dash bit (some n) = some (bit + n)
letter_of false true bit (some n) = some n
letter_of false false bit (some n) = none

-- The value of letters that stand for bits, the first one for the bit `bit`: each of them is the letter expected
-- there if its bit is set, and else `-`. Any other letter has no value.
abbrev pub mode_of : (expected letters : List ℕ) → (bit : ℕ) → Option ℕ
mode_of [] [] bit = some 0
mode_of [] (c ∷ l) bit = none
mode_of (e ∷ es) [] bit = none
mode_of (e ∷ es) (c ∷ l) bit =
    let rest = mode_of es l (bit / 2) in letter_of (c == e) (c == b'-') bit rest

two_cases : (r : ℕ) → r < 2 → (r ≡ 0) ⊎ (r ≡ 1)
two_cases r h = ground arith

letter_lem :
    (letter bit mode n : ℕ) (es l : List ℕ)
    → (letter == b'-') ≡ false
    → mode_of es l (bit / 2) ≡ some n
    → mode_of (letter ∷ es) (flag letter bit mode ∷ l) bit ≡ some (bit * (mode / bit % 2) + n)
letter_lem letter bit mode n es l h rest =
    let dash : (b'-' == letter) ≡ false = ground (arith, h) in
    let same : (letter == letter) ≡ true = ground arith in
    elim (two_cases (mode / bit % 2) (omega arith)) [
      | inl e ↦ rw (e, rest, dash) (ap some (omega arith))
      | inr e ↦ rw (e, rest, same) (ap some (omega arith))
    ]

-- What is printed for the bits from `bit` on, and what it is worth.
abbrev letters : (expected : List ℕ) (bit mode : ℕ) → List ℕ
letters [] bit mode = []
letters (e ∷ es) bit mode = flag e bit mode ∷ letters es (bit / 2) mode

abbrev worth : (expected : List ℕ) (bit mode : ℕ) → ℕ
worth [] bit mode = 0
worth (e ∷ es) bit mode = bit * (mode / bit % 2) + worth es (bit / 2) mode

letters_lem :
    (es : List ℕ) (bit mode : ℕ)
    → All (λ e. (e == b'-') ≡ false) es
    → mode_of es (letters es bit mode) bit ≡ some (worth es bit mode)
letters_lem [] bit mode h = refl
letters_lem (e ∷ es) bit mode h =
    letter_lem e bit mode (worth es (bit / 2) mode) es (letters es (bit / 2) mode) (h.0)
      (letters_lem es (bit / 2) mode (h.1))

bits_lem :
    (m : ℕ)
    → 256 * (m / 256 % 2)
        + (128 * (m / 128 % 2)
            + (64 * (m / 64 % 2)
                + (32 * (m / 32 % 2)
                    + (16 * (m / 16 % 2)
                        + (8 * (m / 8 % 2)
                            + (4 * (m / 4 % 2) + (2 * (m / 2 % 2) + (1 * (m / 1 % 2) + 0))))))))
      ≡ m % 512
bits_lem m =
    let h1 : 1 * (m / 1 % 2) + 0 ≡ m % 2 = omega arith in
    let h2 : 2 * (m / 2 % 2) + m % 2 ≡ m % 4 = omega arith in
    let h4 : 4 * (m / 4 % 2) + m % 4 ≡ m % 8 = omega arith in
    let h8 : 8 * (m / 8 % 2) + m % 8 ≡ m % 16 = omega arith in
    let h16 : 16 * (m / 16 % 2) + m % 16 ≡ m % 32 = omega arith in
    let h32 : 32 * (m / 32 % 2) + m % 32 ≡ m % 64 = omega arith in
    let h64 : 64 * (m / 64 % 2) + m % 64 ≡ m % 128 = omega arith in
    let h128 : 128 * (m / 128 % 2) + m % 128 ≡ m % 256 = omega arith in
    let h256 : 256 * (m / 256 % 2) + m % 256 ≡ m % 512 = omega arith in
    rw (h1, h2, h4, h8, h16, h32, h64, h128) h256

-- The letters of a mode with all permissions.
abbrev pub all_letters : List ℕ
all_letters = b'r' ∷ b'w' ∷ b'x' ∷ b'r' ∷ b'w' ∷ b'x' ∷ b'r' ∷ b'w' ∷ b'x' ∷ []

-- The last nine letters that `ls -l` prints before a name are those of `rwxrwxrwx`, or `-`, and read back as the
-- permissions of the entry; the first one is `d` for a directory and else `-`.
pub mode_text-mode_of :
    (m : ℕ)
    → (letters : List ℕ) × (mode_text m ≡ (if is_dir m then b'd' else b'-') ∷ letters)
      × (mode_of all_letters letters 256 ≡ some (m % 512))
unfolding mode_text
mode_text-mode_of m = (
  letters all_letters 256 m,
  refl,
  letters_lem all_letters 256 m
        (refl, (refl, (refl, (refl, (refl, (refl, (refl, (refl, (refl, tt)))))))))
      ∙ ap some (bits_lem m),
)
