-- ===== src/Students/Setup.antt =====
-- X.c, Y.c and clean.c, before the loops: X makes the segment and the semaphore, Y waits for the segment, and
-- clean.c removes it. What `ftok` gives to X is an argument, `false` for -1, and it works for the others; `shmget` fails
-- only where the segment exists, or for Y and clean.c where it does not.
use linux_programming.Prelude.{
  ℕ, zero, suc, ◌<◌, Bool, true, false, Option, none, some, List, [], ◌∷◌, ◌≡◌, refl, arith,
  if◌then◌else◌, length, Returns, Returns-map,
}
use linux_programming.Students.{Student, Table, end_roll, load}
use linux_programming.Students.Table.{Ends, Real, load-Ends}

-- What exists in the system: the segment and the semaphore.
pub record Ipc (F : Type 0) : Type 0 where
  pub segment : Option (Table F)
  pub mute : Option ℕ

module _ {F : Type 0} where
  -- A new segment is filled with zeros; `zero_cg` is the `float` of that pattern.
  abbrev pub blank : F → Student F
  blank zero_cg = record { first_name = []; last_name = []; roll = 0; cg = zero_cg }

  abbrev pub zeros : ℕ → F → Table F
  zeros zero zero_cg = []
  zeros (suc n) zero_cg = blank zero_cg ∷ zeros n zero_cg

  -- X up to its file: whether it goes on, and what it leaves. `SETVAL` sets also a semaphore that was there.
  pub open_saver : (key key2 : Bool) → F → Ipc F → Bool × Ipc F
  open_saver key key2 zero_cg ipc =
      if key
      then elim ipc.segment [
        | some t ↦ (false, ipc)
        | none ↦
            if key2
            then (true, record { segment = some (zeros 101 zero_cg); mute = some 1 })
            else (false, record ipc { segment = some (zeros 101 zero_cg) })
      ]
      else (false, ipc)

  -- Y up to its loop, on what its rounds of `shmget` see: whether it has the semaphore, which it does not look at.
  -- `none` is a Y that still waits.
  unfoldable pub open_editor : List (Ipc F) → Option Bool
  open_editor [] = none
  open_editor (ipc ∷ later) =
      let rest = open_editor later in
      elim ipc.segment [
        | none ↦ rest
        | some t ↦ some (elim ipc.mute [ none ↦ false | some n ↦ true ])
      ]

  -- clean.c: the segments that it has removed and those that it has found, and what it leaves.
  pub clean : Ipc F → ℕ × ℕ × Ipc F
  clean ipc = elim ipc.segment [
    | none ↦ (0, 0, ipc)
    | some t ↦ (1, 1, record ipc { segment = none })
  ]

  zeros-Real : (n : ℕ) (zero_cg : F) → Real (zeros n zero_cg)
  zeros-Real zero zero_cg = tt
  zeros-Real (suc n) zero_cg = ((λ e. omega (arith, e)), zeros-Real n zero_cg)

  length-zeros : (n : ℕ) (zero_cg : F) → length (zeros n zero_cg) ≡ n
  length-zeros zero zero_cg = refl
  length-zeros (suc n) zero_cg = omega (arith, length-zeros n zero_cg)

  loaded :
      (zero_cg : F) (file : List (Student F))
      → length file < 101
      → Returns
          (load file true (zeros 101 zero_cg))
          (λ x. (x.0 ≡ length file) × ((e : Ends end_roll file x.1) × Real e.free))
  loaded zero_cg file small =
      let room : length file < length (zeros 101 zero_cg) =
        omega (arith, small, length-zeros 101 zero_cg) in
      Returns-map _ _ (load file true (zeros 101 zero_cg)) (load-Ends file (zeros 101 zero_cg) room)
        (λ x h. (h.0, (h.1.0, h.1.1 (zeros-Real 101 zero_cg))))

  -- Where `ftok` gives X both keys, whatever was there, also a semaphore that stays at 0: after clean.c a new X
  -- starts, with the semaphore at 1, and loads a file of at most 100 records that ends with a newline: all its
  -- records, in order, -1 behind them, and no other -1 behind that; where no record of the file has the roll -1,
  -- there is no other -1 at all.
  pub clean-start :
      (key key2 : Bool) (segment : Option (Table F)) (mute : Option ℕ) (zero_cg : F)
      (file : List (Student F))
      → key ≡ true
      → key2 ≡ true
      → length file < 101
      → (open_saver key key2 zero_cg (clean (record { segment = segment; mute = mute })).2
          ≡ (true, record { segment = some (zeros 101 zero_cg); mute = some 1 }))
        × Returns
            (load file true (zeros 101 zero_cg))
            (λ x. (x.0 ≡ length file) × ((e : Ends end_roll file x.1) × Real e.free))
  unfolding open_saver clean
  clean-start key key2 none mute zero_cg file h h2 small = (rw (h, h2), loaded zero_cg file small)
  clean-start key key2 (some t) mute zero_cg file h h2 small =
      (rw (h, h2), loaded zero_cg file small)
