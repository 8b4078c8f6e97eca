-- ===== src/Signals/Switch/Arrive.antt =====
-- The thread that is switched to: it runs, the thread that it follows is freed if it was dying, and its
-- signals are handled.
use linux_programming.Prelude.{
  ℕ, Bool, true, false, Option, none, some, List, [], ◌∷◌, ◌≡◌, ◌≢◌, inl, inr, refl, sym, subst, ap,
  ◌∙◌, arith, ◌==◌, Bool-cases, All, All-map, Absent, ==_iff, Returns, Returns-map,
}
use mathlib.Core.Path.{fun_ext}
use linux_programming.Prelude.Store.{update}
use linux_programming.Scheduler.{Status, running, dying}
use linux_programming.Sig
use linux_programming.Signals.{Thread, Kernel}
use linux_programming.Signals.SigList.{Pending}
use linux_programming.Signals.Handle.{check_signals, handle_signals, over_lifetime}
use linux_programming.Signals.Handle.Delivery.{Sound, delivered, any_wakes, woken}
use linux_programming.Signals.Handle.Outcome.{Handles, called, woken-false, handle_signals-Handles}
use linux_programming.Signals.Handle.Receive.{count_child}
use linux_programming.Signals.Handle.Quiet.{
  Leaves, Harmless, AllHarmless, Same, handle_signals-Leaves, over_lifetime-none, check_signals_lem,
}
use linux_programming.Signals.Switch.{Cpu}
use linux_programming.Signals.Switch.Peace.{Memory, IsReady, Peace, Holds-Absent, Peace-write}

-- No handler runs, the queue is `queue`, and the status of the thread on the processor satisfies `S`.
pub record Steady (S : Status → Type 0) (queue : List ℕ) (c : Cpu) : Type 0 where
  pub off : c.kernel.interrupts ≡ false
  pub handler : c.in_handler ≡ false
  pub ready_list : c.kernel.ready_list ≡ queue
  pub current : (t : Thread) × (c.kernel.mem c.kernel.current ≡ some t) × S t.status
  pub peace : Peace c.kernel.mem c.idle_thread queue c.kernel.all_list
  pub signals : AllHarmless c.idle_thread c.kernel.sig_list

-- The page at `p` is freed, or the thread on it is dying.
abbrev pub Dead : Memory → ℕ → Type 0
Dead m p = (t : Thread) → m p ≡ some t → t.status ≡ dying

pub Returns-Leaves :
    {A : Type 0} (P Q : A → Type 0) (m : Option A)
    → Returns m P
    → Leaves Q m
    → Returns m (λ a. P a × Q a)
Returns-Leaves P Q none h l = absurd h
Returns-Leaves P Q (some a) h l = (h, l)

module _ (k : Kernel) (t : Thread) (at : k.mem k.current ≡ some t) (r : t.status ≡ running) where
  any_wakes-none :
      (p : ℕ) (l : List Pending) → All (λ x. x.sig ≢ Sig.ublock) l → any_wakes k t at r p l ≡ false
  any_wakes-none p [] h = refl
  any_wakes-none p (x ∷ xs) h =
      let quiet : (x.sig == Sig.ublock) ≡ false = let z = h.0 in ground (arith, z) in
      rw quiet (any_wakes-none p xs h.1)

  delivered-none :
      (s : ℕ) (l : List Pending)
      → All (λ x. x.sig ≡ s → x.receiver ≢ k.current) l
      → delivered k t at r s l ≡ false
  delivered-none s [] h = refl
  delivered-none s (x ∷ xs) h = elim (Bool-cases (x.sig == s)) [
    | inl e ↦
        let other : (x.receiver == k.current) ≡ false =
          let z = h.0 ((==_iff x.sig s).0 e) in ground (arith, z) in
        rw (other, delivered-none s xs h.1) (ground arith)
    | inr e ↦ rw (e, delivered-none s xs h.1) (ground arith)
  ]

  -- What `check_signals` leaves, where nothing that pends wakes a thread.
  module _ (idle : ℕ) (queue : List ℕ) (calm : Peace k.mem idle queue k.all_list)
      (quiet : AllHarmless idle k.sig_list) where
    pub record Handled (x : Bool × Kernel) : Type 0 where
      pub same : Same k x.1
      pub harmless : AllHarmless idle x.1.sig_list
      pub peace : Peace x.1.mem idle queue k.all_list
      pub current : (u : Thread) × (x.1.mem k.current ≡ some u) × (u.status ≡ running)
      pub dead : (p : ℕ) → Dead k.mem p → Dead x.1.mem p
      pub spares : x.0 ≡ true → k.current ≢ idle

    waits_not : Absent k.current queue
    waits_not = Holds-Absent IsReady k.mem k.current t queue at (λ e. cc) calm.waiting

    module _ (x : Bool × Kernel) (h : Handles k t at r (over_lifetime k.clock_count t) x) where
      spares_lem : x.0 ≡ true → k.current ≢ idle
      spares_lem e same =
          let lasts : t.maxlifetime ≡ 0 =
            let e' : some (calm.idles.0.0) ≡ some t =
              sym (calm.idles.0.1) ∙ ap k.mem (sym same) ∙ at in
            let e'' : calm.idles.0.0 ≡ t = cc in
            ap (λ (u : Thread). u.maxlifetime) (sym e'') ∙ calm.idles.0.2.1 in
          let no_cpu =
            delivered-none Sig.cpu k.sig_list
              (All-map (Harmless idle) _ k.sig_list (λ y hy f. absurd (hy.2 f)) quiet) in
          let no_kill =
            delivered-none Sig.kill k.sig_list
              (All-map (Harmless idle) _ k.sig_list (λ y hy f g. hy.3 f (g ∙ same)) quiet) in
          let no_time = over_lifetime-none k.clock_count t lasts in
          let never : x.0 ≡ false = h.exits ∙ rw (no_cpu, no_kill, no_time) (ground arith) in
          ground (e, never, arith)

      peace_lem : Peace x.1.mem idle queue k.all_list
      peace_lem =
          let w : Thread =
            count_child (called k t at r (over_lifetime k.clock_count t) Sig.chld) t in
          let written : Peace (update k.mem k.current (some w)) idle queue k.all_list =
            Peace-write k.mem idle queue k.all_list calm k.current t w at waits_not (λ e. cc) refl
              (calm.sane k.current t at) in
          let mem : update k.mem k.current (some w) ≡ x.1.mem = fun_ext (λ q.
            elim (Bool-cases (k.current == q)) [
              | inl f ↦ rw f (sym h.current ∙ ap x.1.mem ((==_iff k.current q).0 f))
              | inr f ↦ rw f (
                  sym (
                    h.others q (ground (arith, f))
                    ∙ ap (λ (c : Bool). woken c (k.mem q))
                        (any_wakes-none q k.sig_list
                          (All-map (Harmless idle) _ k.sig_list (λ y hy. hy.1) quiet))
                    ∙ woken-false (k.mem q)))
            ]) in
          subst (λ (m : Memory). Peace m idle queue k.all_list) mem written

      dead_lem : (p : ℕ) → Dead k.mem p → Dead x.1.mem p
      dead_lem p d u e = elim (Bool-cases (k.current == p)) [
        | inl f ↦
            let same = (==_iff k.current p).0 f in
            let gone : t.status ≡ dying = d t (ap k.mem (sym same) ∙ at) in absurd (cc)
        | inr f ↦ d u (
            sym (
              h.others p (ground (arith, f))
              ∙ ap (λ (c : Bool). woken c (k.mem p))
                  (any_wakes-none p k.sig_list
                    (All-map (Harmless idle) _ k.sig_list (λ y hy. hy.1) quiet))
              ∙ woken-false (k.mem p))
            ∙ e)
      ]

    pub check_signals-Handled : Returns (check_signals k) Handled
    check_signals-Handled =
        let over = over_lifetime k.clock_count t in
        let sound : Sound k k.sig_list =
          All-map (Harmless idle) _ k.sig_list (λ x h. (h.0, (λ e. absurd (h.1 e)))) quiet in
        rw (check_signals_lem k t at) (
          Returns-map (λ x. Handles k t at r over x × (Same k x.1 × AllHarmless idle x.1.sig_list))
            Handled (handle_signals over k)
            (Returns-Leaves (Handles k t at r over) _ (handle_signals over k)
              (handle_signals-Handles k t at r over ((calm.sane k.current t at).0) sound)
              (handle_signals-Leaves idle over k quiet))
            (λ x h. record {
              same = h.1.0;
              harmless = h.1.1;
              peace = peace_lem x h.0;
              current = (_, h.0.current, r);
              dead = dead_lem x h.0;
              spares = spares_lem x h.0;
            }))
