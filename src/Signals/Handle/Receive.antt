-- ===== src/Signals/Handle/Receive.antt =====
-- `handleSignals` as a whole: the walk over the pending signals, and the handlers.
use mathlib.Core.List.{append-nil, append_assoc}
use linux_programming.Prelude.{
  ℕ, ◌+◌, ◌-◌, ◌%◌, ◌^◌, ◌≤◌, ◌<◌, Bool, true, false, ◌||◌, some, List, [], ◌∷◌, ◌++◌, ◌≡◌, ◌≢◌,
  refl, sym, ◌∙◌, ap, arith, inl, inr, ◌==◌, if◌then◌else◌, Bool-cases, ensure, Returns,
  Returns-bind, Returns-map, ==_iff,
}
use linux_programming.Prelude.Store.{update_self, update_ne}
use linux_programming.Scheduler.{running, is_running}
use linux_programming.Sig
use linux_programming.Sigset.{check_bit}
use linux_programming.Signals.{
  Thread, Kernel, Message, usr_from, chld, max_lifetime, killed, thread_current,
}
use linux_programming.Signals.SigList.{Pending}
use linux_programming.Signals.Handle.{
  Walk, deliver, receive, child_handler, run_fatal, run_handlers,
}
use linux_programming.Signals.Handle.Delivery.{
  Sound, woken, any_wakes, staying, Woke, Walks, wake-Walks, take_signal-Walks, kept_lem,
}

module _ (k : Kernel) (t : Thread) (at : k.mem k.current ≡ some t) (r : t.status ≡ running) where
  deliver-Walks :
      (b : ℕ → Bool) (x : Pending) (w : Walk)
      → x.sig ≤ 4
      → (x.sig ≡ Sig.ublock → (u : Thread) × (k.mem x.receiver ≡ some u))
      → w.sigd < 256
      → Woke k t at r b w.kernel
      → Returns (deliver x w) (Walks k t at r b (x ∷ []) w)
  unfolding deliver
  deliver-Walks b x w small live byte before = elim (Bool-cases (x.sig == Sig.ublock)) [
    | inl e ↦
        let l = live ((==_iff x.sig Sig.ublock).0 e) in
        rw e (wake-Walks k t at r b x w small byte before l.0 l.1 e)
    | inr e ↦
        let same : (x.receiver == w.kernel.current) ≡ (x.receiver == k.current) =
          ap (λ (c : ℕ). x.receiver == c) before.current in
        rw e (elim (Bool-cases (x.receiver == w.kernel.current)) [
          | inl m ↦ rw m (take_signal-Walks k t at r b x w small byte before e (sym same ∙ m))
          | inr m ↦
              let other = sym same ∙ m in
              rw m (kept_lem k t at r b x w small byte before (ground (arith, e, other)))
        ])
  ]

  Walks-cons :
      (b : ℕ → Bool) (x : Pending) (xs : List Pending) (w v w' : Walk)
      → Walks k t at r b (x ∷ []) w v
      → Walks k t at r (λ p. b p || any_wakes k t at r p (x ∷ [])) xs v w'
      → Walks k t at r b (x ∷ xs) w w'
  Walks-cons b x xs w v w' one rest = record {
    kept =
        rw
          (
            rest.kept,
            one.kept,
            append_assoc w.kept (staying k t at r (x ∷ [])) (staying k t at r xs),
          )
          (ground arith);
    sigd = (rest.sigd.0, (λ c hc. rw (rest.sigd.1 c hc, one.sigd.1 c hc) (ground arith)));
    sender = rw (rest.sender, one.sender);
    woke = record {
      mem = λ p. rw (rest.woke.mem p) (ap (λ (z : Bool). woken z (k.mem p)) (ground arith));
      rest = rest.woke.rest;
      current = rest.woke.current;
    };
  }

  pub receive-Walks :
      (l : List Pending) (b : ℕ → Bool) (w : Walk)
      → Sound k l
      → w.sigd < 256
      → Woke k t at r b w.kernel
      → Returns (receive l w) (Walks k t at r b l w)
  unfolding receive
  receive-Walks [] b w sound byte before = record {
    kept = sym (append-nil w.kept);
    sigd = (byte, (λ c hc. ground arith));
    sender = refl;
    woke = record {
      mem = λ p. rw (before.mem p) (ground arith);
      rest = before.rest;
      current = before.current;
    };
  }
  receive-Walks (x ∷ xs) b w sound byte before =
      Returns-bind (Walks k t at r b (x ∷ []) w) (Walks k t at r b (x ∷ xs) w) (deliver x w)
        (λ v. receive xs v) (deliver-Walks b x w sound.0.0 sound.0.1 byte before)
        (λ v one.
          Returns-map (Walks k t at r (λ p. b p || any_wakes k t at r p (x ∷ [])) xs v)
            (Walks k t at r b (x ∷ xs) w) (receive xs v)
            (receive-Walks xs (λ p. b p || any_wakes k t at r p (x ∷ [])) v sound.1 one.sigd.0
              one.woke)
            (λ w' rest. Walks-cons b x xs w v w' one rest))

-- What `CHILD_handler` prints.
abbrev pub child_line : Thread → Message
child_line t = chld t.child ((t.child + (2 ^ 32 - (t.dchild + 1) % 2 ^ 32)) % 2 ^ 32)

abbrev pub first_lines : (u c : Bool) (sender : ℕ) → Thread → List Message
first_lines u c sender t =
    (if u then usr_from sender ∷ [] else []) ++ (if c then child_line t ∷ [] else [])

-- What the handlers print, in their order; `u`, `c`, `p` and `q` say whether SIG_USR, SIG_CHLD, SIG_CPU
-- and SIG_KILL are handled.
abbrev pub lines : (u c p q : Bool) (sender : ℕ) → Thread → List Message
lines u c p q sender t =
    first_lines u c sender t
    ++ (if p then max_lifetime (t.maxlifetime % 2 ^ 32) ∷ [] else if q then killed ∷ [] else [])

abbrev pub count_child : Bool → Thread → Thread
count_child c t = record t { dchild = if c then (t.dchild + 1) % 2 ^ 32 else t.dchild }

module _ (k : Kernel) (t : Thread) (at : k.mem k.current ≡ some t) (r : t.status ≡ running) where
  pub current_lem : thread_current k ≡ some t
  unfolding thread_current
  current_lem = let on : ensure (is_running t.status) ≡ some tt = ground arith in rw (at, on)

  pub record Runs (u c p q : Bool) (sender : ℕ) (x : Bool × Kernel) : Type 0 where
    pub exits : x.0 ≡ (p || q)
    pub console : x.1.console ≡ k.console ++ lines u c p q sender t
    pub current : x.1.mem k.current ≡ some (count_child c t)
    pub others : (a : ℕ) → a ≢ k.current → x.1.mem a ≡ k.mem a
    pub rest : record x.1 { mem = k.mem; console = k.console } ≡ k

  -- SIG_CPU goes before SIG_KILL, and either ends the thread.
  run_fatal-Runs :
      (u c : Bool) (sender sigd calls : ℕ) (k' : Kernel)
      → k'.console ≡ k.console ++ first_lines u c sender t
      → k'.mem k.current ≡ some (count_child c t)
      → ((a : ℕ) → a ≢ k.current → k'.mem a ≡ k.mem a)
      → record k' { mem = k.mem; console = k.console } ≡ k
      → Returns
          (run_fatal sigd calls k')
          (Runs u c (check_bit calls Sig.cpu) (check_bit sigd Sig.kill) sender)
  unfolding run_fatal
  run_fatal-Runs u c sender sigd calls k' printed here others rest =
      let same : k'.current ≡ k.current = ap (λ (k : Kernel). k.current) rest in
      let there : k'.mem k'.current ≡ some (count_child c t) =
        ap (λ (a : ℕ). k'.mem a) same ∙ here in
      let l = first_lines u c sender t in
      rw there (elim (Bool-cases (check_bit calls Sig.cpu)) [
        | inl e ↦ rw e (record {
          exits = refl;
          console =
              rw printed (append_assoc k.console l (max_lifetime (t.maxlifetime % 2 ^ 32) ∷ []));
          current = here;
          others = others;
          rest = rest;
        })
        | inr e ↦ rw e (elim (Bool-cases (check_bit sigd Sig.kill)) [
          | inl f ↦ rw f (record {
            exits = refl;
            console = rw printed (append_assoc k.console l (killed ∷ []));
            current = here;
            others = others;
            rest = rest;
          })
          | inr f ↦ rw f (record {
            exits = refl;
            console = printed ∙ ap (λ (l : List Message). k.console ++ l) (sym (append-nil l));
            current = here;
            others = others;
            rest = rest;
          })
        ])
      ])

  pub run_handlers-Runs :
      (sigd calls sender : ℕ)
      → Returns (run_handlers sigd calls sender k) (
          Runs
            (check_bit calls Sig.usr)
            (check_bit calls Sig.chld)
            (check_bit calls Sig.cpu)
            (check_bit sigd Sig.kill)
            sender)
  unfolding run_handlers child_handler thread_current
  run_handlers-Runs sigd calls sender =
      let on : ensure (is_running t.status) ≡ some tt = ground arith in
      elim (Bool-cases (check_bit calls Sig.usr)) [
        | inl e ↦ rw e (elim (Bool-cases (check_bit calls Sig.chld)) [
          | inl f ↦
              rw (f, at, on)
                (run_fatal-Runs true true sender sigd calls _
                  (append_assoc k.console (usr_from sender ∷ []) (child_line t ∷ []))
                  (update_self k.mem k.current _) (λ a ne. update_ne k.mem k.current _ a ne) refl)
          | inr f ↦ rw f (run_fatal-Runs true false sender sigd calls _ refl at (λ a ne. refl) refl)
        ])
        | inr e ↦ rw e (elim (Bool-cases (check_bit calls Sig.chld)) [
          | inl f ↦
              rw (f, at, on)
                (run_fatal-Runs false true sender sigd calls _ refl (update_self k.mem k.current _)
                  (λ a ne. update_ne k.mem k.current _ a ne) refl)
          | inr f ↦ rw f (
              run_fatal-Runs false false sender sigd calls k (sym (append-nil k.console)) at
                (λ a ne. refl) refl)
        ])
      ]
