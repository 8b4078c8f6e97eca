-- ===== src/Scheduler/Contracts.antt =====
-- What the ASSERTs of thread.c tell of a call that has returned.
use linux_programming.Prelude.{
  ℕ, ◌≤◌, Bool, true, false, not, Option, none, some, List, ◌≡◌, ◌≢◌, ◌⊎◌, inl, inr, subst, arith,
  ◌==◌, leb, Bool-cases, Option-cases, ensure, Returns,
}
use linux_programming.Scheduler.{
  Thread, Kernel, blocked, is_blocked, null, pri_max, thread_yield, thread_block, thread_exit,
  thread_unblock, thread_create, init_thread,
}
use linux_programming.Scheduler.Invariant.{IsValid}
use linux_programming.Scheduler.Calls.{thread_current_lem}

pub returned : {A : Type 0} (P : A → Type 0) (m : Option A) (a : A) → Returns m P → m ≡ some a → P a
returned {A} P m a h e = subst (λ (o : Option A). Returns o P) e h

module _ (k : Kernel) (v : IsValid k) where
  refused : (b : Bool) → b ≡ true → ensure (not b) ≡ none
  refused b h = rw h

  pub yields_outside : (k' : Kernel) → thread_yield k ≡ some k' → k.in_handler ≡ false
  unfolding thread_yield
  yields_outside k' e = elim (Bool-cases k.in_handler) [
    | inl h ↦ let f = rw (thread_current_lem k v, refused k.in_handler h) at e in absurd (cc)
    | inr h ↦ h
  ]

  pub blocks_outside :
      (k' : Kernel) → thread_block k ≡ some k' → (k.in_handler ≡ false) × (k.interrupts ≡ false)
  unfolding thread_block
  blocks_outside k' e = elim (Bool-cases k.in_handler) [
    | inl h ↦ let f = rw (refused k.in_handler h) at e in absurd (cc)
    | inr h ↦ (
      h,
      elim (Bool-cases k.interrupts) [
        | inl i ↦
            let open_handler : ensure (not k.in_handler) ≡ some tt = rw h in
            let f = rw (open_handler, refused k.interrupts i) at e in absurd (cc)
        | inr i ↦ i
      ],
    )
  ]

  pub exits_outside : (k' : Kernel) → thread_exit k ≡ some k' → k.in_handler ≡ false
  unfolding thread_exit
  exits_outside k' e = elim (Bool-cases k.in_handler) [
    | inl h ↦ let f = rw (refused k.in_handler h) at e in absurd (cc)
    | inr h ↦ h
  ]

  pub unblocks_blocked :
      (k' : Kernel) (p : ℕ)
      → thread_unblock p k ≡ some k'
      → (t : Thread) × (k.mem p ≡ some t) × (t.status ≡ blocked)
  unfolding thread_unblock
  unblocks_blocked k' p e = elim (Option-cases (k.mem p)) [
    | inl n ↦ let f = rw n at e in absurd (cc)
    | inr (t, at) ↦ (
      t,
      at,
      elim (Bool-cases (is_blocked t.status)) [
        | inl b ↦ ground (arith, b)
        | inr b ↦
            let stop : ensure (is_blocked t.status) ≡ none = rw b in
            let f = rw (at, stop) at e in absurd (cc)
      ],
    )
  ]

  pub creates_given :
      (r : Option ℕ × Kernel) (page function : ℕ) (name : List ℕ) (priority : ℕ)
      → thread_create page function name priority k ≡ some r
      → (function ≢ null)
        × (((page ≡ null) × (r ≡ (none, k))) ⊎ ((page ≢ null) × (priority ≤ pri_max)))
  unfolding thread_create init_thread
  creates_given r page function name priority e = elim (Bool-cases (function == null)) [
    | inl h ↦ let f = rw (refused (function == null) h) at e in absurd (cc)
    | inr h ↦
        let code : ensure (not (function == null)) ≡ some tt = rw h in
        (
          ground (arith, h),
          elim (Bool-cases (page == null)) [
            | inl n ↦ let f = rw (code, n) at e in inl (ground (arith, n), cc)
            | inr n ↦ inr (
              ground (arith, n),
              elim (Bool-cases (leb priority pri_max)) [
                | inl l ↦ ground (arith, l)
                | inr l ↦
                    let stop : ensure (leb priority pri_max) ≡ none = rw l in
                    let f = rw (code, n, stop) at e in absurd (cc)
              ],
            )
          ],
        )
  ]
