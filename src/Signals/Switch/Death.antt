-- ===== src/Signals/Switch/Death.antt =====
-- What `thread_exit` does to the thread before it switches.
use linux_programming.Prelude.{
  ℕ, remove, All-map, All-remove, Distinct-remove, Absent-remove, true, false, not, some, List, ◌≡◌,
  ◌≢◌, ◌==◌, Bool, Bool-cases, Option, none, inl, inr, arith, refl, sym, subst, ap, ◌∙◌, ensure,
  Returns, Returns-bind,
}
use linux_programming.Prelude.Store.{update, update_self}
use linux_programming.Scheduler.{running, dying}
use linux_programming.Signals.{Thread, Kernel}
use linux_programming.Signals.Handle.{notify_all}
use linux_programming.Signals.Handle.Quiet.{AllHarmless}
use linux_programming.Signals.Handle.Orphans.{notify_all-Leaves}
use linux_programming.Signals.Handle.Receive.{current_lem}
use linux_programming.Signals.Handle.Exit.{Told, orphaned, among, parents, notify_all-Told}
use linux_programming.Signals.Switch.{Cpu, die}
use linux_programming.Signals.Switch.Peace.{
  Memory, IsSane, IsReady, Peace, Holds-Absent, Peace-outside, Peace-orphaned,
}
use linux_programming.Signals.Switch.Arrive.{Steady, Dead, Returns-Leaves}
use linux_programming.Signals.Switch.Turn.{IsRunning}

Peace-dies :
    (m : Memory) (idle : ℕ) (queue all : List ℕ) (p : ℕ) (t : Thread)
    → Peace m idle queue all
    → m p ≡ some t
    → t.status ≡ running
    → p ≢ idle
    → Peace (update m p (some (record t { status = dying }))) idle queue (remove p all)
Peace-dies m idle queue all p t h at r mortal =
    let gone : Peace m idle queue (remove p all) = record {
      waiting = h.waiting;
      once = h.once;
      idles = h.idles;
      apart = h.apart;
      alive = All-remove _ p all h.alive;
      all_once = Distinct-remove p all h.all_once;
      sane = h.sane;
    } in
    Peace-outside m idle queue (remove p all) gone p (some (record t { status = dying }))
      (Holds-Absent IsReady m p t queue at (λ e. cc) h.waiting) ((λ e. mortal (sym e)), tt)
      (Absent-remove p all h.all_once)
      (λ u e. let e' : record t { status = dying } ≡ u = cc in subst IsSane e' (h.sane p t at))

orphaned-Dead :
    (b : Bool) (tid : ℕ) (o : Option Thread)
    → ((v : Thread) → o ≡ some v → v.status ≡ dying)
    → (u : Thread) → orphaned b tid o ≡ some u
    → u.status ≡ dying
orphaned-Dead b tid none d u e = absurd (cc)
orphaned-Dead b tid (some v) d u e =
    ap (λ (o : Option Thread). elim o [ none ↦ u.status | some x ↦ x.status ]) (sym e) ∙ d v refl

update-Dead :
    (m : Memory) (p : ℕ) (t : Thread) (q : ℕ)
    → t.status ≡ dying
    → (p ≢ q → Dead m q)
    → Dead (update m p (some t)) q
update-Dead m p t q gone d u e = elim (Bool-cases (p == q)) [
  | inl f ↦
      let e' : some t ≡ some u = rw f at e in
      ap (λ (o : Option Thread). elim o [ none ↦ u.status | some x ↦ x.status ]) (sym e') ∙ gone
  | inr f ↦ d (ground (arith, f)) u (rw f at e)
]

-- What `die` leaves: the caller is dying and off the list, and who was dead stays so.
abbrev pub Dies : (queue : List ℕ) (c : Cpu) → Cpu → Type 0
Dies queue c c' =
    Steady (λ s. s ≢ running) queue c'
    × (c'.idle_thread ≡ c.idle_thread)
    × (c'.kernel.all_list ≡ remove c.kernel.current c.kernel.all_list)
    × Dead c'.kernel.mem c.kernel.current
    × ((q : ℕ) → Dead c.kernel.mem q → Dead c'.kernel.mem q)

-- What is left of a thread that exits: it is dying, and in none of the lists; who was dead stays so.
pub die-Steady :
    (queue : List ℕ) (c : Cpu)
    → Steady IsRunning queue c
    → c.kernel.current ≢ c.idle_thread
    → Returns (die true c) (Dies queue c)
unfolding die
die-Steady queue c s mortal =
    let (t, at, r) = s.current in
    let k : Kernel = record c.kernel { interrupts = false } in
    let sane = s.peace.sane c.kernel.current t at in
    let awake : ensure (not c.in_handler) ≡ some tt = let o = s.handler in rw o in
    rw (awake, current_lem c.kernel t at r)
      (Returns-bind
        (λ k'.
          Told k c.kernel.current t at sane.1 (λ q. among q c.kernel.all_list)
            (λ q. parents k c.kernel.current t at sane.1 q c.kernel.all_list) k'
          × AllHarmless c.idle_thread k'.sig_list)
        _ (notify_all true c.kernel.current c.kernel.all_list k) _
        (Returns-Leaves _ _ (notify_all true c.kernel.current c.kernel.all_list k)
          (notify_all-Told k c.kernel.current t at sane.1 c.kernel.all_list
            (All-map _ _ c.kernel.all_list (λ p x. (x.0, x.1)) s.peace.alive))
          (notify_all-Leaves c.idle_thread true c.kernel.current c.kernel.all_list k s.signals))
        (λ k' h.
          let runs : k'.current ≡ c.kernel.current = ap (λ (k : Kernel). k.current) h.0.rest in
          let lists : k'.all_list ≡ c.kernel.all_list = ap (λ (k : Kernel). k.all_list) h.0.rest in
          let calm : Peace k'.mem c.idle_thread queue k'.all_list =
            subst (Peace k'.mem c.idle_thread queue) (sym lists) (
              Peace-orphaned c.kernel.mem k'.mem c.idle_thread queue c.kernel.all_list
                (λ q. among q c.kernel.all_list) t.tid s.peace h.0.mem) in
          let there =
            ap k'.mem runs
            ∙ h.0.mem c.kernel.current
            ∙ ap (orphaned (among c.kernel.current c.kernel.all_list) t.tid) at in
          rw (current_lem k' _ there r) (
            (record {
              off = ap (λ (k : Kernel). k.interrupts) h.0.rest;
              handler = s.handler;
              ready_list = ap (λ (k : Kernel). k.ready_list) h.0.rest ∙ s.ready_list;
              current = (_, update_self k'.mem k'.current _, (λ e. cc));
              peace =
                  Peace-dies k'.mem c.idle_thread queue k'.all_list k'.current _ calm there r
                    (λ e. mortal (sym runs ∙ e));
              signals = h.1;
            }),
            refl,
            ap (λ (q : ℕ). remove q k'.all_list) runs ∙ ap (remove c.kernel.current) lists,
            update-Dead k'.mem k'.current _ c.kernel.current refl (λ ne. absurd (ne runs)),
            (λ q d. update-Dead k'.mem k'.current _ q refl (λ ne u e.
                orphaned-Dead (among q c.kernel.all_list) t.tid (c.kernel.mem q) d u
                  (sym (h.0.mem q) ∙ e))),
          )))
