-- ===== src/Copy/Chunks.antt =====
-- The chunks of a file: their lengths, the message, and the zero behind a full one.
use linux_programming.Prelude.{
  ℕ, ◌+◌, ◌-◌, ◌%◌, ◌≤◌, ◌<◌, Bool, true, false, ◌||◌, List, ◌∷◌, ◌≡◌, ◌⊎◌, inl, inr, refl, ap,
  arith, ◌==◌, if◌then◌else◌, Bool-cases, min, length, take, drop, length-take, drop-all, ltb,
}
use linux_programming.Copy.Phases.{owed, Chunk}

pub owed-Chunk :
    (c i : List ℕ)
    → Chunk c i
    → owed (length c + length i) ≡ (if ltb (length c) 100 then 1 else 0) + owed (length i)
owed-Chunk c i (some_left, few, inl full) =
    let same : (length c + length i) % 100 ≡ length i % 100 = omega arith in
    let no : ltb (length c) 100 ≡ false = ground (arith, full) in rw (same, no) (omega arith)
owed-Chunk c i (some_left, few, inr none_left) =
    let zero_left : length i ≡ 0 = ap length none_left in
    elim (Bool-cases (ltb (length c) 100)) [
      | inl e ↦
          let no : ((length c + length i) % 100 == 0) ≡ false =
            ground (arith, e, zero_left, some_left) in
          rw (e, no, zero_left)
      | inr e ↦
          let yes : ((length c + length i) % 100 == 0) ≡ true = ground (arith, e, zero_left, few) in
          rw (e, yes, zero_left)
    ]

-- The zero behind a full chunk, once more.
pub overrun-again : (b x : Bool) (l : ℕ) → (l ≡ 100 → b ≡ true) → ((b || l == 100) || x) ≡ (b || x)
overrun-again true x l h = refl
overrun-again false x l h = elim (Bool-cases (l == 100)) [
  | inl e ↦ let t = h (ground (arith, e)) in ground (arith, t)
  | inr e ↦ rw e
]

pub full-noted : (b : Bool) (l : ℕ) → l + 0 ≡ 100 → (b || l == 100) ≡ true
full-noted true l h = refl
full-noted false l h = ground (arith, h)

-- The zero behind a full chunk, when it is read.
pub overrun-chunk :
    (b : Bool) (l lc lr : ℕ)
    → lc ≡ min 100 l
    → lr ≡ l - 100
    → ((b || lc == 100) || ltb 99 lr) ≡ (b || ltb 99 l)
overrun-chunk true l lc lr h h' = refl
overrun-chunk false l lc lr h h' = ground (arith, h, h')

few_or_many : (n : ℕ) → (n < 100) ⊎ (100 ≤ n)
few_or_many n = elim (Bool-cases (ltb n 100)) [
  | inl e ↦ inl (ground (arith, e))
  | inr e ↦ inr (ground (arith, e))
]

pub next-Chunk : (x : ℕ) (i : List ℕ) → Chunk (take 100 (x ∷ i)) (drop 100 (x ∷ i))
next-Chunk x i =
    let l = length-take 100 (x ∷ i) in
    (
      omega arith,
      omega arith,
      elim (few_or_many (length i)) [
        | inl few ↦ inr (drop-all (x ∷ i) 100 (omega arith))
        | inr many ↦ inl (omega arith)
      ],
    )
