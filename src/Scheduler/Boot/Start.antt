-- ===== src/Scheduler/Boot/Start.antt =====
-- The start of thread.c, from the boot loader's stack to the first good kernel.
use linux_programming.Prelude.{
  ℕ, true, false, not, Option, none, some, List, [], ◌∷◌, ◌++◌, ◌≡◌, ◌≢◌, refl, sym, ◌∙◌, ap, arith,
  ◌==◌, ==_iff, Bool-cases, subst, inl, inr, ensure, take, Returns, Returns-bind, Returns-map,
}
use linux_programming.Prelude.Store.{update, update_self, update_ne}
use linux_programming.Scheduler.{
  Status, running, ready, blocked, Thread, Kernel, null, thread_current, init_thread, allocate_tid,
  thread_unblock, thread_create, thread_block, thread_init,
}
use linux_programming.Scheduler.Invariant.{IsCount}
use linux_programming.Scheduler.Steps.{IsGood}
use linux_programming.Scheduler.Boot.{
  idle_name, pri_min, thread_start, idle_begins, idle_round, boot,
}
use linux_programming.Scheduler.Boot.Pair.{Pair, fresh, block-Pair, unblock-Pair, swap, flagged}

-- From the boot loader's stack: no thread stands anywhere.
pub record Bare (page : ℕ) (k : Kernel) : Type 0 where
  pub memory : (p : ℕ) → k.mem p ≡ none
  pub current : k.current ≡ page
  pub quiet : k.interrupts ≡ false
  pub outside : k.in_handler ≡ false

-- The structure of a thread that `init_thread` fills, under an identifier.
abbrev named : (tid : ℕ) (name : List ℕ) (priority : ℕ) (s : Status) → Thread
named tid name priority s = record {
  tid = tid;
  status = s;
  name = take 15 name;
  priority = priority;
  count = 0;
}

zero_count : (u t : Thread) → u.count ≡ 0 → some u ≡ some t → IsCount t.count
zero_count u t z e =
    let same : u ≡ t = cc in subst (λ (v : Thread). IsCount v.count) same (inl (omega (arith, z)))

module _ (page q : ℕ) (real : page ≢ null) (real' : q ≢ null) (apart : page ≢ q) where
  init-Pair :
      (name : List ℕ) (k : Kernel)
      → Bare page k
      → Returns
          (thread_init page name k)
          (λ k'. (x : Thread) × Pair page q (some (fresh x running)) none [] page k')
  unfolding thread_init init_thread allocate_tid
  init-Pair name k h =
      let x = named k.next_tid name 31 running in
      let off : ensure (not k.interrupts) ≡ some tt = rw (h.quiet) refl in
      let is_page : (page == null) ≡ false = ground arith in
      let m = update k.mem page (some (named 0 name 31 blocked)) in
      let made : m page ≡ some (named 0 name 31 blocked) =
        update_self k.mem page (some (named 0 name 31 blocked)) in
      let other : (p : ℕ) → p ≢ page → update m page (some x) p ≡ none = λ p ne.
        update_ne m page (some x) p ne
        ∙ update_ne k.mem page (some (named 0 name 31 blocked)) p ne
        ∙ h.memory p in
      rw (off, is_page, made)
        (
          x,
          record {
            first = update_self m page (some x);
            second = other q (λ e. apart (sym e));
            others = λ p na nb. other p na;
            high = refl;
            low = refl;
            current = h.current;
            outside = h.outside;
          },
        )

  create-Pair :
      (x : Thread) (idle : ℕ) (k : Kernel)
      → idle ≢ null
      → Pair page q (some (fresh x running)) none [] page k
      → Returns (thread_create q idle idle_name pri_min k) (λ r.
        (y : Thread) × Pair page q
          (some (fresh x running))
          (some (fresh y ready))
          (q ∷ [])
          page
          r.1)
  unfolding thread_create init_thread allocate_tid thread_unblock
  create-Pair x idle k code h =
      let has_code : (idle == null) ≡ false = ground arith in
      let is_page : (q == null) ≡ false = ground arith in
      let a = named 0 idle_name pri_min blocked in
      let b = named k.next_tid idle_name pri_min blocked in
      let c = named k.next_tid idle_name pri_min ready in
      let m = update k.mem q (some a) in
      let n = update m q (some b) in
      let made : m q ≡ some a = update_self k.mem q (some a) in
      let same : (q == q) ≡ true = ground arith in
      let other : (p : ℕ) → p ≢ q → update n q (some c) p ≡ k.mem p = λ p ne.
        update_ne n q (some c) p ne
        ∙ update_ne m q (some b) p ne
        ∙ update_ne k.mem q (some a) p ne in
      rw (has_code, is_page, made, same)
        (
          c,
          record {
            first = other page apart ∙ h.first;
            second = update_self n q (some c);
            others = λ p na nb. other p nb ∙ h.others p na nb;
            high = ap (λ (l : List ℕ). l ++ q ∷ []) h.high;
            low = h.low;
            current = h.current;
            outside = h.outside;
          },
        )

  -- Two threads, the initial one on the processor and the idle one blocked, make a good kernel.
  Pair-IsGood :
      (x y : Thread) (k : Kernel)
      → Pair q page (some (fresh y blocked)) (some (fresh x running)) [] page k
      → k.idle_thread ≡ q
      → IsGood k
  Pair-IsGood x y k h i = record {
    valid = record {
      queues = record {
        high = rw (h.high) tt;
        low = rw (h.low) tt;
        distinct_high = rw (h.high) tt;
        distinct_low = rw (h.low) tt;
        idle = (fresh y blocked, rw i (h.first), (λ d. cc), inl (omega arith));
      };
      current = (fresh x running, rw (h.current) (h.second), refl, inl (omega arith));
    };
    counts = λ p t e. elim (Bool-cases (p == q)) [
      | inl f ↦
          zero_count (fresh y blocked) t refl (sym h.first ∙ ap k.mem (sym ((==_iff p q).0 f)) ∙ e)
      | inr f ↦ elim (Bool-cases (p == page)) [
        | inl g ↦
            zero_count (fresh x running) t refl
              (sym h.second ∙ ap k.mem (sym ((==_iff p page).0 g)) ∙ e)
        | inr g ↦
            let z = sym (h.others p (ground (arith, f)) (ground (arith, g))) ∙ e in absurd (cc)
      ]
    ];
  }

  module _ (sema_down sema_up : Kernel → Option Kernel)
      (down : (k : Kernel) → sema_down k ≡ thread_block (record k { interrupts = false }))
      (up : (k : Kernel) → sema_up k ≡ thread_unblock page k) (idle : ℕ) (code : idle ≢ null) where
    start-Pair :
        (x : Thread) (k : Kernel)
        → Pair page q (some (fresh x running)) none [] page k
        → Returns (thread_start sema_down q idle k) (λ k'.
          (y : Thread) × Pair page q (some (fresh x blocked)) (some (fresh y running)) [] q k')
    unfolding thread_start
    start-Pair x k h =
        Returns-bind _ _ (thread_create q idle idle_name pri_min k) _ (create-Pair x idle k code h)
          (λ r (y, h'). rw (down (record r.1 { interrupts = true })) (
            Returns-map _ _ (thread_block (record r.1 { interrupts = false }))
              (block-Pair page q real real' apart x y r.1 h') (λ k' b. (y, b.0))))

    idle-Pair :
        (x y : Thread) (k : Kernel)
        → Pair page q (some (fresh x blocked)) (some (fresh y running)) [] q k
        → Returns (idle_begins sema_up (record k { interrupts = true })) (λ k'.
          Pair page q (some (fresh x ready)) (some (fresh y running)) (page ∷ []) q k'
          × (k'.idle_thread ≡ q))
    unfolding idle_begins thread_current
    idle-Pair x y k h =
        let k' = record k { interrupts = true; idle_thread = q; current = q } in
        rw (h.current, h.second, up k')
          (unblock-Pair page q real real' apart x y k'
            (flagged page q (some (fresh x blocked)) (some (fresh y running)) [] q k true q h))

    -- Where `idle_started` starts at 0, `sema_down` blocks the initial thread and `sema_up` wakes it: from the boot loader's
    -- stack, with pages for two threads, the start returns in a good kernel: the initial thread runs, the queues are
    -- empty, and the idle thread stands in for them.
    pub boot-IsGood :
        (name : List ℕ) (k : Kernel)
        → Bare page k
        → Returns (boot sema_down sema_up page name q idle k) (λ k'.
          IsGood k'
          × (k'.current ≡ page)
          × (k'.idle_thread ≡ q)
          × (k'.ready_list ≡ [])
          × (k'.ready_list_low ≡ []))
    unfolding boot idle_round
    boot-IsGood name k bare =
        Returns-bind _ _ (thread_init page name k) _ (init-Pair name k bare) (λ k₁ (x, h₁).
          Returns-bind _ _ (thread_start sema_down q idle k₁) _ (start-Pair x k₁ h₁) (λ k₂ (y, h₂).
            Returns-bind _ _ (idle_begins sema_up (record k₂ { interrupts = true })) _
              (idle-Pair x y k₂ h₂)
              (λ k₃ (h₃, i).
                Returns-map _ _ (thread_block (record k₃ { interrupts = false }))
                  (block-Pair q page real' real (λ e. apart (sym e)) y x k₃
                    (swap _ _ _ _ _ _ k₃ h₃))
                  (λ k₄ (h₄, j).
                    (Pair-IsGood x y k₄ h₄ (j ∙ i), h₄.current, j ∙ i, h₄.high, h₄.low)))))
