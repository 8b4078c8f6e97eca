-- ===== src/Shell/Transfer.antt =====
-- Command_interrupter/shell.c, the loop of `cp`. A descriptor is known by what can still be read from it, or
-- by what was written to it; `none` is a descriptor that is not open, with which a read or a write fails.
use linux_programming.Prelude.{
  ℕ, zero, suc, ◌+◌, ◌≤◌, ◌<◌, true, false, Option, none, some, List, [], ◌∷◌, ◌++◌, ◌≡◌, inl, inr,
  refl, sym, ap, arith, ◌==◌, if◌then◌else◌, Bool-cases, ◌∙◌, length, length-append, subst, take,
  drop, is_empty, take-drop, length-take, length-drop, take-all, Returns, Returns-map,
}
use mathlib.Core.List.{append_assoc, append-nil}

-- What stands behind `inputFd` and `outputFd`.
pub record Descriptors : Type 0 where
  pub input : Option (List ℕ)
  pub output : Option (List ℕ)

-- `sizeof(buf)`
abbrev pub buf_size : ℕ
buf_size = 1024

-- `read(inputFd, buf, 1024)`, empty at the end and where it fails.
abbrev pub chunk_of : Option (List ℕ) → List ℕ
chunk_of none = []
chunk_of (some l) = take buf_size l

-- What is left to read.
abbrev pub behind : Option (List ℕ) → Option (List ℕ)
behind none = none
behind (some l) = some (drop buf_size l)

-- `if (write(outputFd, buf, numRead) != numRead) close(inputFd);`, where the write stores `k` bytes, or all
-- where the chunk has fewer.
abbrev pub write_chunk : (k : ℕ) (chunk : List ℕ) → Descriptors → Descriptors
write_chunk k chunk d = elim d.output [
  | none ↦ record d { input = none }
  | some out ↦
      let stored = take k chunk in
      record {
        input = if length stored == length chunk then behind d.input else none;
        output = some (out ++ stored);
      }
]

-- The loop, from its `i`-th round on; `none` is a loop that does not end within the rounds.
pub transfer : (rounds : ℕ) (stored : ℕ → ℕ) (i : ℕ) → Descriptors → Option Descriptors
transfer zero stored i d = none
transfer (suc n) stored i d =
    let chunk = chunk_of d.input in
    let rest = transfer n stored (i + 1) (write_chunk (stored i) chunk d) in
    if is_empty chunk then some d else rest

-- The rounds that are always enough.
abbrev pub rounds_of : Option (List ℕ) → ℕ
rounds_of none = 1
rounds_of (some l) = suc (length l)

-- What the loop leads to from `l` behind `inputFd` and `out` behind `outputFd`: all is copied and the input
-- stays open; or some of it is not, and the input is closed.
pub data Copied (l out : List ℕ) (d : Descriptors) : Type 0 where
  all : d.input ≡ some [] → d.output ≡ some (out ++ l) → Copied l out d
  less :
      (p rest : List ℕ)
      → l ≡ p ++ rest
      → 0 < length rest
      → d.input ≡ none
      → d.output ≡ some (out ++ p)
      → Copied l out d

pub closed :
    (rounds : ℕ) (stored : ℕ → ℕ) (i : ℕ) (o : Option (List ℕ))
    → 0 < rounds
    → transfer rounds stored i (record { input = none; output = o })
      ≡ some (record { input = none; output = o })
unfolding transfer
closed zero stored i o h = absurd (omega (arith, h))
closed (suc n) stored i o h = refl

cons-Copied :
    (chunk l out : List ℕ) (d : Descriptors) → Copied l (out ++ chunk) d → Copied (chunk ++ l) out d
cons-Copied chunk l out d (all i o) =
    all i (o ∙ ap (λ (l : List ℕ). some l) (append_assoc out chunk l))
cons-Copied chunk l out d (less p rest e h i o) =
    less (chunk ++ p) rest (ap (λ (l : List ℕ). chunk ++ l) e ∙ sym (append_assoc chunk p rest)) h i
      (o ∙ ap (λ (l : List ℕ). some l) (append_assoc out chunk p))

whole_write :
    (k : ℕ) (chunk : List ℕ) → (length (take k chunk) == length chunk) ≡ true → take k chunk ≡ chunk
whole_write k chunk e = take-all chunk k (ground (arith, length-take k chunk, e))

short_write :
    (k : ℕ) (chunk : List ℕ)
    → (length (take k chunk) == length chunk) ≡ false
    → 0 < length (drop k chunk)
short_write k chunk e = ground (arith, length-take k chunk, length-drop k chunk, e)

-- Where the write of a chunk is short, the rest of it is not copied, nor is what stands behind it.
short-Copied :
    (k : ℕ) (chunk l out : List ℕ)
    → (length (take k chunk) == length chunk) ≡ false
    → Copied (chunk ++ l) out (record { input = none; output = some (out ++ take k chunk) })
short-Copied k chunk l out e =
    less (take k chunk) (drop k chunk ++ l)
      (ap (λ (c : List ℕ). c ++ l) (sym (take-drop k chunk))
        ∙ append_assoc (take k chunk) (drop k chunk) l)
      (omega (arith, short_write k chunk e, length-append (drop k chunk) l)) refl refl

-- Whatever the writes store, a loop with more rounds than there are bytes to read ends: it has copied them all
-- and left the input open, or it has copied the first ones, not all, and closed the input.
pub transfer-Copied :
    (rounds : ℕ) (stored : ℕ → ℕ) (i : ℕ) (l out : List ℕ)
    → length l < rounds
    → Returns
        (transfer rounds stored i (record { input = some l; output = some out }))
        (Copied l out)
unfolding transfer
transfer-Copied zero stored i l out h = absurd (omega (arith, h))
transfer-Copied (suc n) stored i [] out h =
    all refl (ap (λ (l : List ℕ). some l) (sym (append-nil out)))
transfer-Copied (suc n) stored i (c ∷ l) out h =
    let chunk = c ∷ take 1023 l in
    let w = take (stored i) chunk in
    let parts : chunk ++ drop 1023 l ≡ c ∷ l = ap (λ (l : List ℕ). c ∷ l) (take-drop 1023 l) in
    elim (Bool-cases (length w == length chunk)) [
      | inl e ↦
          let next =
            transfer-Copied n stored (i + 1) (drop 1023 l) (out ++ chunk)
              (omega (arith, length-drop 1023 l, h)) in
          rw (e, whole_write (stored i) chunk e)
            (subst
              (λ (v : List ℕ).
                Returns
                  (transfer n stored (i + 1)
                    (record { input = some (drop 1023 l); output = some (out ++ chunk) }))
                  (Copied v out))
              parts
              (Returns-map (Copied (drop 1023 l) (out ++ chunk)) (Copied (chunk ++ drop 1023 l) out)
                _ next (λ d. cons-Copied chunk (drop 1023 l) out d)))
      | inr e ↦
          rw (e, closed n stored (i + 1) (some (out ++ w)) (omega (arith, h)))
            (subst
              (λ (v : List ℕ). Copied v out (record { input = none; output = some (out ++ w) }))
              parts (short-Copied (stored i) chunk (drop 1023 l) out e))
    ]

-- Where each write stores the chunk, all is copied, and the input stays open.
pub transfer-whole :
    (rounds : ℕ) (stored : ℕ → ℕ) (i : ℕ) (l out : List ℕ)
    → ((j : ℕ) → buf_size ≤ stored j)
    → length l < rounds
    → transfer rounds stored i (record { input = some l; output = some out })
      ≡ some (record { input = some []; output = some (out ++ l) })
unfolding transfer
transfer-whole zero stored i l out full h = absurd (omega (arith, h))
transfer-whole (suc n) stored i [] out full h =
    ap (λ (l : List ℕ). some (record { input = some []; output = some l })) (sym (append-nil out))
transfer-whole (suc n) stored i (c ∷ l) out full h =
    let chunk = c ∷ take 1023 l in
    let room : length chunk ≤ stored i = omega (arith, full i, length-take 1023 l) in
    let w : take (stored i) chunk ≡ chunk = take-all chunk (stored i) room in
    let same : (length chunk == length chunk) ≡ true = ground arith in
    let parts : chunk ++ drop 1023 l ≡ c ∷ l = ap (λ (l : List ℕ). c ∷ l) (take-drop 1023 l) in
    rw (w, same)
      (transfer-whole n stored (i + 1) (drop 1023 l) (out ++ chunk) full
          (omega (arith, length-drop 1023 l, h))
        ∙ ap (λ (v : List ℕ). some (record { input = some []; output = some v }))
            (append_assoc out chunk (drop 1023 l) ∙ ap (λ (v : List ℕ). out ++ v) parts))

-- A loop that cannot write ends: it has read all or closed the input.
pub transfer-unwritten :
    (o : Option (List ℕ)) (stored : ℕ → ℕ)
    → transfer (rounds_of o) stored 0 (record { input = o; output = none })
      ≡ some (record { input = if is_empty (chunk_of o) then o else none; output = none })
unfolding transfer
transfer-unwritten none stored = refl
transfer-unwritten (some []) stored = refl
transfer-unwritten (some (c ∷ l)) stored = closed (suc (length l)) stored 1 (none) (omega arith)
