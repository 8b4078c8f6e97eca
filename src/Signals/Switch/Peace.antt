-- ===== src/Signals/Switch/Peace.antt =====
-- Threads between two switches: what holds of the memory, and which writes keep it.
use linux_programming.Prelude.{
  ℕ, ◌<◌, Bool, ◌&&◌, Option, none, some, List, [], ◌∷◌, ◌≡◌, ◌≢◌, inl, inr, refl, sym, subst, ap,
  ◌∙◌, ◌==◌, if◌then◌else◌, Bool-cases, All, Absent, Distinct, ==_iff,
}
use linux_programming.Prelude.Store.{update, update_ne}
use linux_programming.Scheduler.{ready, dying}
use linux_programming.Signals.{Thread, minus_one_int}
use linux_programming.Signals.Handle.Exit.{orphaned}

abbrev pub Memory : Type 0
Memory = ℕ → Option Thread

-- The threads of the list are live, and satisfy `S`.
abbrev pub Holds : (Thread → Type 0) → Memory → List ℕ → Type 0
Holds S m = All (λ p. (u : Thread) × (m p ≡ some u) × S u)

-- The ignore set is a byte, and the thread is not its own parent; -1 identifies none.
abbrev pub IsSane : Thread → Type 0
IsSane u = (u.sigign < 256) × (u.parent ≢ u.tid) × (u.tid ≢ minus_one_int)

abbrev pub AllSane : Memory → Type 0
AllSane m = (p : ℕ) (u : Thread) → m p ≡ some u → IsSane u

-- The thread does not die: its lifetime is not limited.
abbrev pub Lasts : Thread → Type 0
Lasts u = (u.status ≢ dying) × (u.maxlifetime ≡ 0)

abbrev pub IsReady : Thread → Type 0
IsReady u = u.status ≡ ready

abbrev pub IsAlive : Thread → Type 0
IsAlive u = u.status ≢ dying

pub record Peace (m : Memory) (idle : ℕ) (queue all : List ℕ) : Type 0 where
  pub waiting : Holds IsReady m queue
  pub once : Distinct queue
  pub idles : Holds Lasts m (idle ∷ [])
  pub apart : Absent idle queue
  pub alive : Holds IsAlive m all
  pub all_once : Distinct all
  pub sane : AllSane m

pub Holds-map :
    (S : Thread → Type 0) (m m' : Memory) (l : List ℕ)
    → ((q : ℕ) (u : Thread) → m q ≡ some u → S u → (v : Thread) × (m' q ≡ some v) × S v)
    → Holds S m l
    → Holds S m' l
Holds-map S m m' [] f h = tt
Holds-map S m m' (q ∷ l) f h = (f q h.0.0 h.0.1 h.0.2, Holds-map S m m' l f h.1)

Holds-outside :
    (S : Thread → Type 0) (m : Memory) (p : ℕ) (v : Option Thread) (l : List ℕ)
    → Absent p l
    → Holds S m l
    → Holds S (update m p v) l
Holds-outside S m p v [] a h = tt
Holds-outside S m p v (q ∷ l) a h =
    ((h.0.0, update_ne m p v q a.0 ∙ h.0.1, h.0.2), Holds-outside S m p v l a.1 h.1)

-- A thread for which `S` fails is not in the list.
pub Holds-Absent :
    (S : Thread → Type 0) (m : Memory) (p : ℕ) (u : Thread) (l : List ℕ)
    → m p ≡ some u
    → (S u → ⊥)
    → Holds S m l
    → Absent p l
Holds-Absent S m p u [] at never h = tt
Holds-Absent S m p u (q ∷ l) at never h = (
  (λ same.
      let e : some (h.0.0) ≡ some u = sym (h.0.1) ∙ ap m same ∙ at in
      let e' : h.0.0 ≡ u = cc in never (subst S e' h.0.2)),
  Holds-Absent S m p u l at never h.1,
)

pub AllSane-update :
    (m : Memory) (p : ℕ) (v : Option Thread)
    → AllSane m
    → ((u : Thread) → v ≡ some u → IsSane u)
    → AllSane (update m p v)
AllSane-update m p v sane new q u e = elim (Bool-cases (p == q)) [
  | inl f ↦ new u (sym (rw f refl) ∙ e)
  | inr f ↦ sane q u (sym (rw f refl) ∙ e)
]

module _ (m : Memory) (idle : ℕ) (queue all : List ℕ) (h : Peace m idle queue all) (p : ℕ) where
  -- A write to a page that is in none of the lists.
  pub Peace-outside :
      (v : Option Thread)
      → Absent p queue
      → Absent p (idle ∷ [])
      → Absent p all
      → ((u : Thread) → v ≡ some u → IsSane u)
      → Peace (update m p v) idle queue all
  Peace-outside v a b c new = record {
    waiting = Holds-outside IsReady m p v queue a h.waiting;
    once = h.once;
    idles = Holds-outside Lasts m p v (idle ∷ []) b h.idles;
    apart = h.apart;
    alive = Holds-outside IsAlive m p v all c h.alive;
    all_once = h.all_once;
    sane = AllSane-update m p v h.sane new;
  }

  -- A write to a live thread that is not in the queue.
  pub Peace-write :
      (u w : Thread)
      → m p ≡ some u
      → Absent p queue
      → w.status ≢ dying
      → w.maxlifetime ≡ u.maxlifetime
      → IsSane w
      → Peace (update m p (some w)) idle queue all
  Peace-write u w at a alive life sane_w =
      let kept : (S : Thread → Type 0) (q : ℕ) (x : Thread)
          → m q ≡ some x
          → S x
          → (p ≡ q → S w)
          → (v : Thread) × (update m p (some w) q ≡ some v) × S v =
        (λ S q x e s new. elim (Bool-cases (p == q)) [
          | inl f ↦ (w, rw f, new ((==_iff p q).0 f))
          | inr f ↦ (x, rw f e, s)
        ]) in
      record {
        waiting = Holds-outside IsReady m p (some w) queue a h.waiting;
        once = h.once;
        idles =
            Holds-map Lasts m _ (idle ∷ [])
              (λ q x e s. kept Lasts q x e s (λ same.
                let e' : some u ≡ some x = sym at ∙ ap m same ∙ e in
                let e'' : u ≡ x = cc in
                (alive, life ∙ ap (λ (y : Thread). y.maxlifetime) e'' ∙ s.1)))
              h.idles;
        apart = h.apart;
        alive = Holds-map IsAlive m _ all (λ q x e s. kept IsAlive q x e s (λ same. alive)) h.alive;
        all_once = h.all_once;
        sane =
            AllSane-update m p (some w) h.sane
              (λ v e. subst IsSane (let e' : w ≡ v = cc in e') sane_w);
      }

-- The dying thread leaves orphans.
pub Peace-orphaned :
    (m m' : Memory) (idle : ℕ) (queue all : List ℕ) (b : ℕ → Bool) (tid : ℕ)
    → Peace m idle queue all
    → ((q : ℕ) → m' q ≡ orphaned (b q) tid (m q))
    → Peace m' idle queue all
Peace-orphaned m m' idle queue all b tid h same = record {
  waiting =
      Holds-map IsReady m m' queue (λ q u e s. (_, same q ∙ ap (orphaned (b q) tid) e, s))
        h.waiting;
  once = h.once;
  idles =
      Holds-map Lasts m m' (idle ∷ []) (λ q u e s. (_, same q ∙ ap (orphaned (b q) tid) e, s))
        h.idles;
  apart = h.apart;
  alive =
      Holds-map IsAlive m m' all (λ q u e s. (_, same q ∙ ap (orphaned (b q) tid) e, s)) h.alive;
  all_once = h.all_once;
  sane = λ q u e. sane_lem (b q) (m q) u (λ x f. h.sane q x f) (sym (same q) ∙ e);
}
  where
    sane_lem :
        (c : Bool) (o : Option Thread) (u : Thread)
        → ((x : Thread) → o ≡ some x → IsSane x)
        → orphaned c tid o ≡ some u
        → IsSane u
    sane_lem c none u f e = absurd (cc)
    sane_lem c (some x) u f e =
        let old = f x refl in
        let e' : record x { parent = if c && x.parent == tid then minus_one_int else x.parent }
            ≡ u =
          cc in
        subst IsSane e' (elim (Bool-cases (c && x.parent == tid)) [
          | inl g ↦ rw g (old.0, (λ z. old.2 (sym z)), old.2)
          | inr g ↦ rw g old
        ])
