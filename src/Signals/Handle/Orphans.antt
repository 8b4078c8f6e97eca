-- ===== src/Signals/Handle/Orphans.antt =====
-- The loop of `thread_exit` over the other threads: it sends no signal that ends one.
use linux_programming.Prelude.{
  ℕ, Bool, List, [], ◌∷◌, arith, inl, inr, ◌==◌, ensure, Bool-cases, All-append,
}
use linux_programming.Sig
use linux_programming.Signals.{Kernel, post, minus_one_int, store}
use linux_programming.Signals.SigList.{Pending, is_for, resend}
use linux_programming.Signals.Handle.{tell, notify, notify_all}
use linux_programming.Signals.Handle.Quiet.{
  Leaves, then-Leaves, always-Leaves, Harmless, AllHarmless,
}

module _ (idle : ℕ) where
  resend-Harmless :
      (receiver sig sender : ℕ) (l : List Pending)
      → AllHarmless idle l
      → AllHarmless idle (resend receiver sig sender l).0
  unfolding resend
  resend-Harmless receiver sig sender [] h = tt
  resend-Harmless receiver sig sender (x ∷ xs) h = elim (Bool-cases (is_for receiver sig x)) [
    | inl e ↦ rw e h
    | inr e ↦ rw e (h.0, resend-Harmless receiver sig sender xs h.1)
  ]

  post-Leaves :
      (allocated : Bool) (p : ℕ) (k : Kernel)
      → AllHarmless idle k.sig_list
      → Leaves (λ k'. AllHarmless idle k'.sig_list) (post allocated p Sig.chld minus_one_int k)
  unfolding post
  post-Leaves allocated p k h =
      let kept = resend-Harmless p Sig.chld minus_one_int k.sig_list h in
      elim (Bool-cases (resend p Sig.chld minus_one_int k.sig_list).1) [
        | inl e ↦ rw e kept
        | inr e ↦ rw e (
            then-Leaves (λ t. Unit {0}) _ (ensure allocated) _ (always-Leaves _)
              (λ t u.
                All-append (Harmless idle) (resend p Sig.chld minus_one_int k.sig_list).0 _ kept (
                  (
                    omega arith,
                    (λ z. omega arith),
                    (λ z. omega arith),
                    (λ z. absurd (omega arith)),
                  ),
                  tt,
                )))
      ]

  tell-Leaves :
      (allocated : Bool) (dying p tid : ℕ) (k : Kernel)
      → AllHarmless idle k.sig_list
      → Leaves (λ k'. AllHarmless idle k'.sig_list) (tell allocated dying p tid k)
  unfolding tell
  tell-Leaves allocated dying p tid k h =
      then-Leaves (λ t. Unit {0}) _ (k.mem dying) _ (always-Leaves _)
        (λ t u. elim (Bool-cases (t.parent == tid)) [
          | inl e ↦ rw e (post-Leaves allocated p k h)
          | inr e ↦ rw e h
        ])

  notify-Leaves :
      (allocated : Bool) (dying p : ℕ) (k : Kernel)
      → AllHarmless idle k.sig_list
      → Leaves (λ k'. AllHarmless idle k'.sig_list) (notify allocated dying p k)
  unfolding notify
  notify-Leaves allocated dying p k h =
      then-Leaves (λ t. Unit {0}) _ (k.mem dying) _ (always-Leaves _)
        (λ t u.
          then-Leaves (λ t. Unit {0}) _ (k.mem p) _ (always-Leaves _)
            (λ l v. elim (Bool-cases (l.parent == t.tid)) [
              | inl e ↦ rw e (
                  tell-Leaves allocated dying p l.tid
                    (store p (record l { parent = minus_one_int }) k) h)
              | inr e ↦ rw e (tell-Leaves allocated dying p l.tid k h)
            ]))

  pub notify_all-Leaves :
      (allocated : Bool) (dying : ℕ) (l : List ℕ) (k : Kernel)
      → AllHarmless idle k.sig_list
      → Leaves (λ k'. AllHarmless idle k'.sig_list) (notify_all allocated dying l k)
  unfolding notify_all
  notify_all-Leaves allocated dying [] k h = h
  notify_all-Leaves allocated dying (p ∷ ps) k h =
      then-Leaves (λ k'. AllHarmless idle k'.sig_list) _ (notify allocated dying p k) _
        (notify-Leaves allocated dying p k h) (λ k' h'. notify_all-Leaves allocated dying ps k' h')
