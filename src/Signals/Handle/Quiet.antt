-- ===== src/Signals/Handle/Quiet.antt =====
-- What `handleSignals` leaves alone where no SIG_UBLOCK is pending.
use linux_programming.Prelude.{
  ℕ, ◌≤◌, Bool, false, not, Option, none, some, List, [], ◌∷◌, ◌≡◌, ◌≢◌, refl, sym, subst, arith,
  inl, inr, ◌==◌, if◌then◌else◌, ◌>>=◌, Bool-cases, All, All-append,
}
use linux_programming.Sig
use linux_programming.Sigset.{check_bit}
use linux_programming.Signals.{Thread, Kernel, thread_current, print, usr_from}
use linux_programming.Signals.SigList.{Pending}
use linux_programming.Signals.Handle.{
  Walk, take_signal, deliver, receive, child_handler, run_fatal, run_handlers, handle_signals,
  check_signals, over_lifetime,
}

-- If the code returns, its result satisfies `P`.
abbrev pub Leaves : {A : Type 0} → (A → Type 0) → Option A → Type 0
Leaves P none = Unit
Leaves P (some a) = P a

pub then-Leaves :
    {A B : Type 0} (P : A → Type 0) (Q : B → Type 0) (m : Option A) (f : A → Option B)
    → Leaves P m
    → ((a : A) → P a → Leaves Q (f a))
    → Leaves Q (m >>= f)
then-Leaves P Q none f h k = tt
then-Leaves P Q (some a) f h k = k a h

pub map-Leaves :
    {A : Type 0} (P Q : A → Type 0) (m : Option A) → Leaves P m → ((a : A) → P a → Q a) → Leaves Q m
map-Leaves P Q none h k = tt
map-Leaves P Q (some a) h k = k a h

pub always-Leaves : {A : Type 0} (m : Option A) → Leaves (λ a. Unit {0}) m
always-Leaves none = tt
always-Leaves (some a) = tt

-- Nothing that is pending wakes a thread, comes from the clock, or kills the thread at `idle`.
abbrev pub Harmless : (idle : ℕ) → Pending → Type 0
Harmless idle x =
    (x.sig ≤ 4) × (x.sig ≢ Sig.ublock) × (x.sig ≢ Sig.cpu) × (x.sig ≡ Sig.kill → x.receiver ≢ idle)

-- The kernel but for its threads, its console and its signals.
abbrev pub Same : Kernel → Kernel → Type 0
Same k k' =
    (k'.ready_list ≡ k.ready_list)
    × (k'.all_list ≡ k.all_list)
    × (k'.current ≡ k.current)
    × (k'.clock_count ≡ k.clock_count)
    × (k'.interrupts ≡ k.interrupts)

module _ (idle : ℕ) where
  abbrev pub AllHarmless : List Pending → Type 0
  AllHarmless = All (Harmless idle)

  take_signal-Leaves :
      (x : Pending) (w : Walk)
      → Harmless idle x
      → AllHarmless w.kept
      → Leaves (λ v. (v.kernel ≡ w.kernel) × AllHarmless v.kept) (take_signal x w)
  unfolding take_signal
  take_signal-Leaves x w hx hw =
      then-Leaves (λ t. Unit {0}) _ (w.kernel.mem w.kernel.current) _ (always-Leaves _)
        (λ t u. elim (Bool-cases (x.sig == Sig.kill)) [
          | inl e ↦ rw e (refl, hw)
          | inr e ↦ rw e (elim (Bool-cases (not (check_bit t.sigmask x.sig))) [
            | inl f ↦ rw f (refl, hw)
            | inr f ↦ rw f (refl, All-append (Harmless idle) w.kept (x ∷ []) hw (hx, tt))
          ])
        ])

  deliver-Leaves :
      (x : Pending) (w : Walk)
      → Harmless idle x
      → AllHarmless w.kept
      → Leaves (λ v. (v.kernel ≡ w.kernel) × AllHarmless v.kept) (deliver x w)
  unfolding deliver
  deliver-Leaves x w hx hw =
      let quiet : (x.sig == Sig.ublock) ≡ false = let z = hx.1 in ground (arith, z) in
      rw quiet (elim (Bool-cases (x.receiver == w.kernel.current)) [
        | inl e ↦ rw e (take_signal-Leaves x w hx hw)
        | inr e ↦ rw e (refl, All-append (Harmless idle) w.kept (x ∷ []) hw (hx, tt))
      ])

  receive-Leaves :
      (l : List Pending) (w : Walk)
      → AllHarmless l
      → AllHarmless w.kept
      → Leaves (λ v. (v.kernel ≡ w.kernel) × AllHarmless v.kept) (receive l w)
  unfolding receive
  receive-Leaves [] w hl hw = (refl, hw)
  receive-Leaves (x ∷ xs) w hl hw =
      then-Leaves (λ v. (v.kernel ≡ w.kernel) × AllHarmless v.kept) _ (deliver x w) (receive xs)
        (deliver-Leaves x w hl.0 hw) (λ v h. rw (sym (h.0)) (receive-Leaves xs v hl.1 h.1))

  abbrev Stays : Kernel → Kernel → Type 0
  Stays k k' = Same k k' × (k'.sig_list ≡ k.sig_list)

  run_fatal-Leaves :
      (k : Kernel) (sigd calls : ℕ) (k' : Kernel)
      → Stays k k'
      → Leaves (λ x. Stays k x.1) (run_fatal sigd calls k')
  unfolding run_fatal
  run_fatal-Leaves k sigd calls k' s =
      then-Leaves (λ t. Unit {0}) _ (k'.mem k'.current) _ (always-Leaves _)
        (λ t u. elim (Bool-cases (check_bit calls Sig.cpu)) [
          | inl e ↦ rw e s
          | inr e ↦
              rw e (elim (Bool-cases (check_bit sigd Sig.kill)) [ inl f ↦ rw f s | inr f ↦ rw f s ])
        ])

  child_handler-Leaves : (k k' : Kernel) → Stays k k' → Leaves (Stays k) (child_handler k')
  unfolding child_handler
  child_handler-Leaves k k' s =
      then-Leaves (λ t. Unit {0}) _ (thread_current k') _ (always-Leaves _) (λ t u. s)

  run_handlers-Leaves :
      (sigd calls sender : ℕ) (k : Kernel)
      → Leaves (λ x. Stays k x.1) (run_handlers sigd calls sender k)
  unfolding run_handlers
  run_handlers-Leaves sigd calls sender k =
      let same : Stays k k = ((refl, refl, refl, refl, refl), refl) in
      let k₁ : Kernel = if check_bit calls Sig.usr then print (usr_from sender) k else k in
      let printed : Stays k k₁ = elim (Bool-cases (check_bit calls Sig.usr)) [
        | inl e ↦ rw e same
        | inr e ↦ rw e same
      ] in
      then-Leaves (Stays k) (λ x. Stays k x.1)
        (if check_bit calls Sig.chld then child_handler k₁ else some k₁) (run_fatal sigd calls)
        (elim (Bool-cases (check_bit calls Sig.chld)) [
          | inl e ↦ rw e (child_handler-Leaves k k₁ printed)
          | inr e ↦ rw e printed
        ])
        (λ k' s. run_fatal-Leaves k sigd calls k' s)

  pub handle_signals-Leaves :
      (scpu : Bool) (k : Kernel)
      → AllHarmless k.sig_list
      → Leaves (λ x. Same k x.1 × AllHarmless x.1.sig_list) (handle_signals scpu k)
  unfolding handle_signals
  handle_signals-Leaves scpu k h =
      then-Leaves (λ t. Unit {0}) _ (thread_current k) _ (always-Leaves _)
        (λ t u.
          then-Leaves (λ v. (v.kernel ≡ k) × AllHarmless v.kept) _ _ _
            (receive-Leaves k.sig_list _ h tt)
            (λ w hw.
              then-Leaves (λ t. Unit {0}) _ (w.kernel.mem w.kernel.current) _ (always-Leaves _)
                (λ t u.
                  map-Leaves (λ x. Stays (record w.kernel { sig_list = w.kept }) x.1) _ _
                    (run_handlers-Leaves _ _ _ (record w.kernel { sig_list = w.kept }))
                    (λ x s. (
                      subst (λ (j : Kernel). Same j x.1) hw.0 s.0,
                      subst AllHarmless (sym s.1) hw.1,
                    )))))

-- A lifetime of 0 is none.
pub over_lifetime-none :
    (clock_count : ℕ) (t : Thread) → t.maxlifetime ≡ 0 → over_lifetime clock_count t ≡ false
unfolding over_lifetime
over_lifetime-none clock_count t h = rw h (ground arith)

pub check_signals_lem :
    (k : Kernel) (t : Thread)
    → k.mem k.current ≡ some t
    → check_signals k ≡ handle_signals (over_lifetime k.clock_count t) k
unfolding check_signals
check_signals_lem k t at = rw at
