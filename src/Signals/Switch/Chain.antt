-- ===== src/Signals/Switch/Chain.antt =====
-- `schedule` as a whole: the threads that exit one after the other, and the one that stays.
use linux_programming.Prelude.{
  ℕ, zero, suc, remove, All, ◌+◌, ◌<◌, true, List, [], ◌∷◌, ◌++◌, ◌≡◌, ◌≢◌, ◌⊎◌, inl, inr, refl,
  sym, subst, ap, ◌∙◌, arith, length, Bool, Bool-cases, Returns, Returns-bind, Returns-map,
}
use linux_programming.Scheduler.{running}
use linux_programming.Signals.{thread_current}
use linux_programming.Signals.Switch.{
  Cpu, pick, next_thread_to_run, switch_to, die, schedule, thread_exit,
}
use linux_programming.Signals.Switch.Peace.{Memory}
use linux_programming.Signals.Switch.Arrive.{Steady, Dead}
use linux_programming.Signals.Switch.Turn.{IsRunning, Turned, switch_to-Turned}
use linux_programming.Signals.Switch.Death.{Dies, die-Steady}

-- The list without each of the threads, in turn.
abbrev pub removes : (exited all : List ℕ) → List ℕ
removes [] all = all
removes (p ∷ ps) all = removes ps (remove p all)

-- The first threads of the queue have exited: the list of all threads has lost them and no others, and each is
-- freed or dying. The next one runs, or the idle thread where none is left.
pub record Settles (idle : ℕ) (queue all : List ℕ) (c : Cpu) : Type 0 where
  pub exited : List ℕ
  pub rest : List ℕ
  pub steady : Steady IsRunning rest c
  pub lists : c.kernel.all_list ≡ removes exited all
  pub dead : All (Dead c.kernel.mem) exited
  pub chosen :
      (queue ≡ exited ++ c.kernel.current ∷ rest)
      ⊎ ((queue ≡ exited) × (rest ≡ []) × (c.kernel.current ≡ idle))

-- The same, and who was dead in `m` stays so.
abbrev pub SettlesFrom : (m : Memory) (idle : ℕ) (queue all : List ℕ) → Cpu → Type 0
SettlesFrom m idle queue all c =
    Settles idle queue all c × ((p : ℕ) → Dead m p → Dead c.kernel.mem p)

later :
    (idle p : ℕ) (queue all : List ℕ) (c : Cpu)
    → Dead c.kernel.mem p
    → Settles idle queue (remove p all) c
    → Settles idle (p ∷ queue) all c
later idle p queue all c gone s = record {
  exited = p ∷ s.exited;
  rest = s.rest;
  steady = s.steady;
  lists = s.lists;
  dead = (gone, s.dead);
  chosen = elim s.chosen [
    | inl e ↦ inl (ap (λ (l : List ℕ). p ∷ l) e)
    | inr e ↦ inr (ap (λ (l : List ℕ). p ∷ l) e.0, e.1, e.2)
  ];
}

next_lem : (c : Cpu) (l : List ℕ) → c.kernel.ready_list ≡ l → next_thread_to_run c ≡ pick l c
unfolding next_thread_to_run
next_lem c l e = ap (λ (l : List ℕ). pick l c) e

-- With a thread on the processor that no longer runs, `schedule` returns if its fuel exceeds the length of the
-- queue.
pub schedule-Settles :
    (fuel : ℕ) (queue : List ℕ) (c : Cpu)
    → Steady (λ s. s ≢ running) queue c
    → length queue < fuel
    → Returns
        (schedule fuel true c)
        (SettlesFrom c.kernel.mem c.idle_thread queue c.kernel.all_list)
unfolding schedule
schedule-Settles zero queue c s enough = absurd (omega arith)
schedule-Settles (suc fuel) [] c s enough =
    let (n, there, lasts) = s.peace.idles.0 in
    rw (next_lem c [] s.ready_list) (
      Returns-bind (Turned c.kernel.mem c.kernel.all_list c.idle_thread c.idle_thread []) _
        (switch_to c.idle_thread c) _ (switch_to-Turned c.idle_thread [] c n s there lasts.0 tt)
        (λ x h. elim (Bool-cases x.0) [
          | inl e ↦ absurd (h.1 e (h.2 ∙ sym h.3))
          | inr e ↦ rw e (
            record {
              exited = [];
              rest = [];
              steady = h.0;
              lists = h.4;
              dead = tt;
              chosen = inr (refl, refl, h.2);
            },
            h.5,
          )
        ]))
schedule-Settles (suc fuel) (p ∷ ps) c s enough =
    let (n, there, ready_now) = s.peace.waiting.0 in
    let c₁ : Cpu = record c { kernel = record c.kernel { ready_list = ps } } in
    let s₁ : Steady (λ s. s ≢ running) ps c₁ = record {
      off = s.off;
      handler = s.handler;
      ready_list = refl;
      current = s.current;
      peace = record {
        waiting = s.peace.waiting.1;
        once = s.peace.once.1;
        idles = s.peace.idles;
        apart = s.peace.apart.1;
        alive = s.peace.alive;
        all_once = s.peace.all_once;
        sane = s.peace.sane;
      };
      signals = s.signals;
    } in
    rw (next_lem c (p ∷ ps) s.ready_list) (
      Returns-bind (Turned c.kernel.mem c.kernel.all_list c.idle_thread p ps)
        (SettlesFrom c.kernel.mem c.idle_thread (p ∷ ps) c.kernel.all_list) (switch_to p c₁) _
        (switch_to-Turned p ps c₁ n s₁ there (λ e. cc) s.peace.once.0)
        (λ x h. elim (Bool-cases x.0) [
          | inl e ↦ rw e (
              Returns-bind (Dies ps x.1)
                (SettlesFrom c.kernel.mem c.idle_thread (p ∷ ps) c.kernel.all_list) (die true x.1)
                (schedule fuel true) (die-Steady ps x.1 h.0 (h.1 e))
                (λ c' d.
                  Returns-map (SettlesFrom c'.kernel.mem c'.idle_thread ps c'.kernel.all_list)
                    (SettlesFrom c.kernel.mem c.idle_thread (p ∷ ps) c.kernel.all_list)
                    (schedule fuel true c') (schedule-Settles fuel ps c' d.0 (omega arith))
                    (λ z q.
                      let listed : c'.kernel.all_list ≡ remove p c.kernel.all_list =
                        d.2
                        ∙ ap (λ (r : ℕ). remove r x.1.kernel.all_list) h.2
                        ∙ ap (remove p) h.4 in
                      let gone : Dead z.kernel.mem p = q.1 p (subst (Dead c'.kernel.mem) h.2 d.3) in
                      let idle : c'.idle_thread ≡ c.idle_thread = d.1 ∙ h.3 in
                      (
                        later c.idle_thread p ps c.kernel.all_list z gone (
                            subst (λ (l : List ℕ). Settles c.idle_thread ps l z) listed
                              (subst (λ (i : ℕ). Settles i ps c'.kernel.all_list z) idle q.0)),
                        λ r e. q.1 r (d.4 r (h.5 r e)),
                      ))))
          | inr e ↦ rw e (
            record {
              exited = [];
              rest = ps;
              steady = h.0;
              lists = h.4;
              dead = tt;
              chosen = inl (ap (λ (q : ℕ). q ∷ ps) (sym h.2));
            },
            h.5,
          )
        ]))

abbrev pub with_interrupts : Bool → Cpu → Cpu
with_interrupts b c = record c { kernel = record c.kernel { interrupts = b } }

die-with_interrupts : (b : Bool) (c : Cpu) → die true (with_interrupts b c) ≡ die true c
unfolding die thread_current
die-with_interrupts b c = refl

-- At any level of interrupts, outside an interrupt handler, where memory is found, the queue holds distinct
-- ready threads, the listed threads are distinct and not dying, the idle thread is neither dying nor in the
-- queue and has no lifetime, the ignore set of each thread is a byte and its tid neither -1 nor its parent's,
-- and each pending signal is known, is no SIG_UBLOCK or SIG_CPU, and no SIG_KILL of the idle thread:
-- `thread_exit` of a running thread that is not the idle one returns, with the fuel for each thread of the
-- queue and one more. Its page is freed or dying. Some first threads of the queue have exited too: they are
-- freed or dying, and the list of all threads has lost the caller, them and no others. The next one runs, or
-- the idle thread if none is left, and the same holds of what is left.
pub thread_exit-Settles :
    (b : Bool) (queue : List ℕ) (c : Cpu)
    → Steady IsRunning queue c
    → c.kernel.current ≢ c.idle_thread
    → Returns (thread_exit (length queue + 1) true (with_interrupts b c)) (λ c'.
      Settles c.idle_thread queue (remove c.kernel.current c.kernel.all_list) c'
      × Dead c'.kernel.mem c.kernel.current)
unfolding thread_exit
thread_exit-Settles b queue c s mortal = rw (die-with_interrupts b c) (
    Returns-bind (Dies queue c) _ (die true c) (schedule (length queue + 1) true)
      (die-Steady queue c s mortal)
      (λ c' d.
        Returns-map (SettlesFrom c'.kernel.mem c'.idle_thread queue c'.kernel.all_list) _
          (schedule (length queue + 1) true c')
          (schedule-Settles (length queue + 1) queue c' d.0 (omega arith))
          (λ z q. (
            subst (λ (l : List ℕ). Settles c.idle_thread queue l z) d.2
                (subst (λ (i : ℕ). Settles i queue c'.kernel.all_list z) d.1 q.0),
            q.1 c.kernel.current d.3,
          ))))
