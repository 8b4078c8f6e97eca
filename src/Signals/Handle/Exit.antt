-- ===== src/Signals/Handle/Exit.antt =====
-- The loop of `thread_exit`: the children of the dying thread become orphans, and its parent is sent
-- SIG_CHLD.
use linux_programming.Prelude.{
  ℕ, Bool, true, false, ◌&&◌, ◌||◌, Option, none, some, List, [], ◌∷◌, ◌≡◌, ◌≢◌, refl, sym, ◌∙◌, ap,
  arith, inl, inr, ◌==◌, if◌then◌else◌, Bool-cases, Returns, Returns-bind, Returns-map, All, ==_iff,
}
use linux_programming.Prelude.Store.{update_self, update_ne}
use linux_programming.Sig
use linux_programming.Signals.{Thread, Kernel, minus_one_int}
use linux_programming.Signals.SigList.{sender_of, sender_of-sent}
use linux_programming.Signals.Posting.{post_lem}
use linux_programming.Signals.Handle.{tell, notify, notify_all}

-- A thread after its parent `tid` is gone.
abbrev pub orphaned : (reached : Bool) (tid : ℕ) → Option Thread → Option Thread
orphaned reached tid none = none
orphaned reached tid (some u) =
    some (record u { parent = if reached && u.parent == tid then minus_one_int else u.parent })

abbrev pub among : ℕ → List ℕ → Bool
among q [] = false
among q (p ∷ ps) = p == q || among q ps

abbrev pub has_tid : ℕ → Option Thread → Bool
has_tid tid none = false
has_tid tid (some u) = tid == u.tid

-- `t` is the dying thread, at the page `dying` of the kernel `k`.
module _ (k : Kernel) (dying : ℕ) (t : Thread) (at : k.mem dying ≡ some t)
    (other : t.parent ≢ t.tid) where
  -- The loop reached the pages of `b`, and told those of `g`.
  pub record Told (b g : ℕ → Bool) (k' : Kernel) : Type 0 where
    pub mem : (q : ℕ) → k'.mem q ≡ orphaned (b q) t.tid (k.mem q)
    pub pending :
        (q s : ℕ)
        → sender_of q s k'.sig_list
          ≡ (if g q && s == Sig.chld then some minus_one_int else sender_of q s k.sig_list)
    pub rest : record k' { mem = k.mem; sig_list = k.sig_list } ≡ k

  -- The page of the list is that of the parent.
  abbrev pub is_parent : ℕ → ℕ → Bool
  is_parent q p = p == q && has_tid t.parent (k.mem q)

  abbrev pub parents : ℕ → List ℕ → Bool
  parents q [] = false
  parents q (p ∷ ps) = is_parent q p || parents q ps

  module _ (b g : ℕ → Bool) (p : ℕ) (u : Thread) (live : k.mem p ≡ some u) (k' : Kernel)
      (h : Told b g k') where
    dying_lem : (b' : Bool) (o : Option Thread) → o ≡ orphaned b' t.tid (k.mem dying) → o ≡ some t
    dying_lem b' o e =
        let same : (t.parent == t.tid) ≡ false = ground (arith, other) in
        e ∙ (rw at (ground (arith, same)))

    parent_lem : (q : ℕ) → is_parent q p ≡ (p == q && t.parent == u.tid)
    parent_lem q = elim (Bool-cases (p == q)) [
      | inl e ↦ rw (sym ((==_iff p q).0 e), live)
      | inr e ↦ rw e
    ]

    reached_lem :
        (m : ℕ → Option Thread)
        → ((q : ℕ) → p ≢ q → m q ≡ k'.mem q)
        → m p ≡ orphaned true t.tid (some u)
        → (q : ℕ) → m q ≡ orphaned (b q || p == q) t.tid (k.mem q)
    reached_lem m others here q = elim (Bool-cases (p == q)) [
      | inl e ↦ rw (e, sym ((==_iff p q).0 e), here, live) (ground arith)
      | inr e ↦ rw (others q (ground (arith, e)), h.mem q, e) (ground arith)
    ]

    tell-Told :
        (k₂ : Kernel)
        → ((q : ℕ) → k₂.mem q ≡ orphaned (b q || p == q) t.tid (k.mem q))
        → ((q s : ℕ)
            → sender_of q s k₂.sig_list
              ≡ (if g q && s == Sig.chld then some minus_one_int else sender_of q s k.sig_list))
        → record k₂ { mem = k.mem; sig_list = k.sig_list } ≡ k
        → Returns
            (tell true dying p u.tid k₂)
            (Told (λ q. b q || p == q) (λ q. g q || is_parent q p))
    unfolding tell
    tell-Told k₂ mem pending rest =
        let here : k₂.mem dying ≡ some t = dying_lem (b dying || p == dying) _ (mem dying) in
        rw here (elim (Bool-cases (t.parent == u.tid)) [
          | inl e ↦
              rw (e, post_lem p Sig.chld minus_one_int k₂)
                (record {
                  mem = mem;
                  pending = λ q s.
                      rw (sender_of-sent p Sig.chld minus_one_int q s k₂.sig_list, pending q s)
                        (let l = parent_lem q in ground (arith, l, e));
                  rest = rest;
                })
          | inr e ↦ rw e (record {
            mem = mem;
            pending = λ q s. rw (pending q s) (let l = parent_lem q in ground (arith, l, e));
            rest = rest;
          })
        ])

    notify-Told :
        Returns (notify true dying p k') (Told (λ q. b q || p == q) (λ q. g q || is_parent q p))
    unfolding notify
    notify-Told =
        let here : k'.mem dying ≡ some t = dying_lem (b dying) _ (h.mem dying) in
        let there : k'.mem p ≡ orphaned (b p) t.tid (some u) = rw (h.mem p, live) in
        rw (here, there)
          (elim (Bool-cases
            ((if b p && u.parent == t.tid then minus_one_int else u.parent) == t.tid)) [
              | inl e ↦ rw e (
                  tell-Told _
                    (reached_lem _ (λ q ne. update_ne k'.mem p _ q (λ same. ne (sym same)))
                      (update_self k'.mem p _
                        ∙ ap (λ (a : ℕ). some (record u { parent = a })) (ground (arith, e))))
                    h.pending h.rest)
              | inr e ↦ rw e (
                  tell-Told k'
                    (reached_lem k'.mem (λ q ne. refl)
                      (there ∙ ap (λ (a : ℕ). some (record u { parent = a })) (ground (arith, e))))
                    h.pending h.rest)
            ])

  notify_all-Told_after :
      (b g : ℕ → Bool) (l : List ℕ) (k' : Kernel)
      → All (λ p. (u : Thread) × (k.mem p ≡ some u)) l
      → Told b g k'
      → Returns
          (notify_all true dying l k')
          (Told (λ q. b q || among q l) (λ q. g q || parents q l))
  unfolding notify_all
  notify_all-Told_after b g [] k' live h = record {
    mem = λ q. h.mem q ∙ ap (λ (c : Bool). orphaned c t.tid (k.mem q)) (ground arith);
    pending = λ q s. rw (h.pending q s) (ground arith);
    rest = h.rest;
  }
  notify_all-Told_after b g (p ∷ ps) k' live h =
      Returns-bind (Told (λ q. b q || p == q) (λ q. g q || is_parent q p)) _
        (notify true dying p k') (λ k'. notify_all true dying ps k')
        (notify-Told b g p live.0.0 live.0.1 k' h)
        (λ v one.
          Returns-map
            (Told (λ q. b q || p == q || among q ps) (λ q. g q || is_parent q p || parents q ps)) _
            (notify_all true dying ps v)
            (notify_all-Told_after (λ q. b q || p == q) (λ q. g q || is_parent q p) ps v live.1 one)
            (λ z h. record {
              mem = λ q. h.mem q ∙ ap (λ (c : Bool). orphaned c t.tid (k.mem q)) (ground arith);
              pending = λ q s. rw (h.pending q s) (ground arith);
              rest = h.rest;
            }))

  orphaned-false : (o : Option Thread) → o ≡ orphaned false t.tid o
  orphaned-false none = refl
  orphaned-false (some u) = refl

  -- Over a list of live threads, where the dying thread is not its own parent and memory is found, the
  -- loop of `thread_exit` returns: the listed threads whose parent was the dying thread have parent -1, the
  -- listed threads that are its parent have SIG_CHLD pending from -1, and no other signal and no other
  -- part of the kernel has changed.
  pub notify_all-Told :
      (l : List ℕ)
      → All (λ p. (u : Thread) × (k.mem p ≡ some u)) l
      → Returns (notify_all true dying l k) (Told (λ q. among q l) (λ q. parents q l))
  notify_all-Told l live =
      notify_all-Told_after (λ q. false) (λ q. false) l k live
        (record { mem = λ q. orphaned-false (k.mem q); pending = λ q s. refl; rest = refl })
