-- ===== src/Signals/Switch/Turn.antt =====
-- A turn: from a thread that is no longer running to the next one, up to a call of `thread_exit`.
use linux_programming.Prelude.{
  ℕ, Bool, true, false, not, Option, none, some, List, [], ◌∷◌, ◌≡◌, ◌≢◌, ◌⊎◌, inl, inr, refl, sym,
  subst, ap, ◌∙◌, arith, ◌==◌, ◌>>=◌, ensure, Bool-cases, Absent, ==_iff, Returns, Returns-bind,
  Returns-map,
}
use linux_programming.Prelude.Store.{update, update_self}
use linux_programming.Scheduler.{Status, running, ready, blocked, dying, is_dying, is_running}
use linux_programming.Signals.{Thread, store}
use linux_programming.Signals.Handle.{check_signals}
use linux_programming.Signals.Handle.Quiet.{AllHarmless}
use linux_programming.Signals.Switch.{Cpu, must_free, thread_schedule_tail, switch_to}
use linux_programming.Signals.Switch.Peace.{
  Memory, Lasts, IsReady, IsAlive, Peace, Holds-Absent, Peace-outside, Peace-write,
}
use linux_programming.Signals.Switch.Arrive.{Steady, Dead, Handled, check_signals-Handled}

abbrev pub IsRunning : Status → Type 0
IsRunning s = s ≡ running

-- The thread at `next` runs, with `queue` behind it; if it is to exit, it is not the idle thread. The threads that
-- were dead in `m` are, and the list of all threads is `all`.
abbrev pub Turned : Memory → (all : List ℕ) (idle next : ℕ) (queue : List ℕ) → Bool × Cpu → Type 0
Turned m all idle next queue x =
    Steady IsRunning queue x.1
    × (x.0 ≡ true → x.1.kernel.current ≢ x.1.idle_thread)
    × (x.1.kernel.current ≡ next)
    × (x.1.idle_thread ≡ idle)
    × (x.1.kernel.all_list ≡ all)
    × ((p : ℕ) → Dead m p → Dead x.1.kernel.mem p)

Dead-write :
    (m : Memory) (p : ℕ) (n : Thread) (o : Option Thread)
    → m p ≡ some n
    → n.status ≢ dying
    → (q : ℕ) → Dead m q
    → Dead (update m p o) q
Dead-write m p n o at alive q d u e = elim (Bool-cases (p == q)) [
  | inl f ↦ absurd (alive (d n (ap m (sym ((==_iff p q).0 f)) ∙ at)))
  | inr f ↦ d u (rw f at e)
]

Dead-free : (m : Memory) (p q : ℕ) → Dead m q → Dead (update m p none) q
Dead-free m p q d u e = elim (Bool-cases (p == q)) [
  | inl f ↦ let z = rw f at e in absurd (cc)
  | inr f ↦ d u (rw f at e)
]

finish-Turned :
    (queue : List ℕ) (c : Cpu)
    → Steady IsRunning queue c
    → Returns
        (check_signals c.kernel >>= λ x. some (x.0, record c { kernel = x.1 }))
        (Turned c.kernel.mem c.kernel.all_list c.idle_thread c.kernel.current queue)
finish-Turned queue c s =
    let (t, at, r) = s.current in
    Returns-bind (Handled c.kernel t at r c.idle_thread queue s.peace s.signals)
      (Turned c.kernel.mem c.kernel.all_list c.idle_thread c.kernel.current queue)
      (check_signals c.kernel) _
      (check_signals-Handled c.kernel t at r c.idle_thread queue s.peace s.signals)
      (λ x h. (
        record {
          off = h.same.4 ∙ s.off;
          handler = s.handler;
          ready_list = h.same.0 ∙ s.ready_list;
          current = (h.current.0, ap x.1.mem h.same.2 ∙ h.current.1, h.current.2);
          peace = subst (Peace x.1.mem c.idle_thread queue) (sym h.same.1) h.peace;
          signals = h.harmless;
        },
        (λ e z. h.spares e (sym h.same.2 ∙ z)),
        h.same.2,
        refl,
        h.same.1,
        h.dead,
      ))

must_free-dying :
    (prev : ℕ) (c : Cpu)
    → must_free prev c ≡ true
    → (prev ≢ 0) × (u : Thread) × (c.kernel.mem prev ≡ some u) × (u.status ≡ dying)
must_free-dying prev c h = go (c.kernel.mem prev) refl
  where
    is_dying_lem : (s : Status) → is_dying s ≡ true → s ≡ dying
    is_dying_lem running e = ground (arith, e)
    is_dying_lem ready e = ground (arith, e)
    is_dying_lem blocked e = ground (arith, e)
    is_dying_lem dying e = refl

    go :
        (o : Option Thread)
        → c.kernel.mem prev ≡ o
        → (prev ≢ 0) × (u : Thread) × (c.kernel.mem prev ≡ some u) × (u.status ≡ dying)
    go none e = absurd (let f = rw e at h in ground (arith, f))
    go (some u) e =
        let f = rw e at h in (ground (arith, f), u, e, is_dying_lem u.status (ground (arith, f)))

module _ (prev : ℕ) (queue : List ℕ) (c : Cpu) (n : Thread) where
  tail-Turned :
      c.kernel.interrupts ≡ false
      → c.in_handler ≡ false
      → c.kernel.ready_list ≡ queue
      → c.kernel.mem c.kernel.current ≡ some n
      → n.status ≢ dying
      → Absent c.kernel.current queue
      → Peace c.kernel.mem c.idle_thread queue c.kernel.all_list
      → AllHarmless c.idle_thread c.kernel.sig_list
      → (prev ≡ 0) ⊎ (prev ≢ c.kernel.current)
      → Returns
          (thread_schedule_tail prev c)
          (Turned c.kernel.mem c.kernel.all_list c.idle_thread c.kernel.current queue)
  unfolding thread_schedule_tail
  tail-Turned off handler list at alive out peace signals apart =
      let next = c.kernel.current in
      let w : Thread = record n { status = running } in
      let m : Memory = update c.kernel.mem next (some w) in
      let c₁ : Cpu = record c { kernel = store next w c.kernel; thread_ticks = 0 } in
      let here : m next ≡ some w = update_self c.kernel.mem next (some w) in
      let calm : Peace m c.idle_thread queue c.kernel.all_list =
        Peace-write c.kernel.mem c.idle_thread queue c.kernel.all_list peace next n w at out
          (λ e. cc) refl (peace.sane next n at) in
      let written : (q : ℕ) → Dead c.kernel.mem q → Dead m q =
        Dead-write c.kernel.mem next n (some w) at alive in
      let disabled : ensure (not c.kernel.interrupts) ≡ some tt = rw off in
      rw (disabled, at)
        (elim (Bool-cases (must_free prev c₁)) [
          | inl f ↦
              let (real, u, dead, gone) = must_free-dying prev c₁ f in
              let other : (prev == next) ≡ false = elim apart [
                | inl z ↦ absurd (real z)
                | inr z ↦ ground (arith, z)
              ] in
              let free : Peace (update m prev none) c.idle_thread queue c.kernel.all_list =
                Peace-outside m c.idle_thread queue c.kernel.all_list calm prev none
                  (Holds-Absent IsReady m prev u queue dead (λ e. cc) calm.waiting)
                  (Holds-Absent Lasts m prev u (c.idle_thread ∷ []) dead (λ e. e.0 gone) calm.idles)
                  (Holds-Absent IsAlive m prev u c.kernel.all_list dead (λ e. e gone) calm.alive)
                  (λ v e. absurd (cc)) in
              rw (f, other)
                (later (update m prev none) (λ q d. Dead-free m prev q (written q d))
                  (check_signals (record c₁.kernel { mem = update m prev none }) >>= λ x.
                    some (x.0, record c₁ { kernel = x.1 }))
                  (finish-Turned queue
                    (record c₁ { kernel = record c₁.kernel { mem = update m prev none } })
                    (record {
                      off = off;
                      handler = handler;
                      ready_list = list;
                      current = (w, rw other here, refl);
                      peace = free;
                      signals = signals;
                    })))
          | inr f ↦ rw f (
              later m written
                (check_signals c₁.kernel >>= λ x. some (x.0, record c₁ { kernel = x.1 }))
                (finish-Turned queue c₁ (record {
                  off = off;
                  handler = handler;
                  ready_list = list;
                  current = (w, here, refl);
                  peace = calm;
                  signals = signals;
                })))
        ])
    where
      later :
          (m' : Memory)
          → ((q : ℕ) → Dead c.kernel.mem q → Dead m' q)
          → (o : Option (Bool × Cpu))
          → Returns o (Turned m' c.kernel.all_list c.idle_thread c.kernel.current queue)
          → Returns o (Turned c.kernel.mem c.kernel.all_list c.idle_thread c.kernel.current queue)
      later m' f o r =
          Returns-map (Turned m' c.kernel.all_list c.idle_thread c.kernel.current queue) _ o r
            (λ x h. (h.0, h.1, h.2, h.3, h.4, (λ q d. h.5 q (f q d))))

-- A turn to the thread at `next`, which is alive and not in the queue behind it.
pub switch_to-Turned :
    (next : ℕ) (queue : List ℕ) (c : Cpu) (n : Thread)
    → Steady (λ s. s ≢ running) queue c
    → c.kernel.mem next ≡ some n
    → n.status ≢ dying
    → Absent next queue
    → Returns (switch_to next c) (Turned c.kernel.mem c.kernel.all_list c.idle_thread next queue)
unfolding switch_to
switch_to-Turned next queue c n s there alive out =
    let (t, at, stopped) = s.current in
    let disabled : ensure (not c.kernel.interrupts) ≡ some tt = let o = s.off in rw o in
    let still : is_running t.status ≡ false = is_running_lem t.status stopped in
    rw (disabled, at, still, there)
      (elim (Bool-cases (c.kernel.current == next)) [
        | inl f ↦
            let same : c.kernel.current ≡ next = (==_iff c.kernel.current next).0 f in
            rw f (
              subst
                (λ (p : ℕ).
                  Returns (thread_schedule_tail 0 c)
                    (Turned c.kernel.mem c.kernel.all_list c.idle_thread p queue))
                same
                (tail-Turned 0 queue c n s.off s.handler s.ready_list (ap c.kernel.mem same ∙ there)
                  alive (subst (λ (p : ℕ). Absent p queue) (sym same) out) s.peace s.signals
                  (inl refl)))
        | inr f ↦ rw f (
            tail-Turned c.kernel.current queue
              (record c { kernel = record c.kernel { current = next } }) n s.off s.handler
              s.ready_list there alive out s.peace s.signals (inr (ground (arith, f))))
      ])
  where
    is_running_lem : (s : Status) → s ≢ running → is_running s ≡ false
    is_running_lem running h = absurd (h refl)
    is_running_lem ready h = refl
    is_running_lem blocked h = refl
    is_running_lem dying h = refl
