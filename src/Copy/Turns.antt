-- ===== src/Copy/Turns.antt =====
-- The turns of the two processes: each step goes from a phase to the next one.
use mathlib.Core.List.{append_assoc}
use linux_programming.Prelude.{
  ℕ, ◌+◌, ◌≤◌, Bool, false, ◌||◌, List, [], ◌∷◌, ◌++◌, refl, ap, ◌∙◌, arith, ◌==◌, if◌then◌else◌,
  length, take, drop, take-drop, length-take, length-drop, take-all, drop-all, ltb,
}
use linux_programming.Copy.{start, parent_step, child_step}
use linux_programming.Copy.Phases.{
  Phase, asks, sends, sent, writes, answers, answered, last, over, state, owed, Facts, Reached,
  Keeps,
}
use linux_programming.Copy.Chunks.{owed-Chunk, overrun-again, full-noted, overrun-chunk, next-Chunk}

module _ (file : List ℕ) (Whole : Type 0) where
  pub start-Reached : Reached file Whole 0 (start file)
  unfolding start
  start-Reached = record {
    ph = asks;
    i = file;
    o = [];
    n = 0;
    b = false;
    shape = refl;
    facts = record {
      fits = tt;
      clock = omega arith;
      messages = omega arith;
      full = λ e. absurd (omega arith);
      overran = refl;
      content = λ w. refl;
    };
  }

  module _ (k : ℕ) (i o : List ℕ) (n : ℕ) (b : Bool) where
    -- The parent reads a chunk, or the end of the file.
    asks_step :
        (i : List ℕ)
        → Facts file Whole k asks i o n b
        → Keeps (Reached file Whole (k + 1)) (parent_step (state i o n b asks))
    unfolding parent_step
    asks_step [] f =
        let t = f.clock in
        record {
          ph = last;
          i = [];
          o = o;
          n = n;
          b = b;
          shape = refl;
          facts = record {
            fits = refl;
            clock = omega arith;
            messages = f.messages;
            overran = f.overran;
            full = f.full;
            content = f.content;
          };
        }
    asks_step (x ∷ i) f =
        let t = f.clock in
        let c = take 100 (x ∷ i) in
        let r = drop 100 (x ∷ i) in
        let lc = length-take 100 (x ∷ i) in
        let lr = length-drop 100 (x ∷ i) in
        record {
          ph = sends c;
          i = r;
          o = o;
          n = n;
          b = b || length c == 100;
          shape = refl;
          facts = record {
            fits = next-Chunk x i;
            clock = omega arith;
            messages = ap (λ (m : ℕ). n + owed m) (omega arith) ∙ f.messages;
            overran = overrun-chunk b (length (x ∷ i)) (length c) (length r) lc lr ∙ f.overran;
            full = full-noted b _;
            content = λ h. ap (λ (l : List ℕ). o ++ l) (take-drop 100 (x ∷ i)) ∙ f.content h;
          };
        }

    -- The child receives the chunk.
    sent_step :
        (c : List ℕ)
        → Facts file Whole k (sent c) i o n b
        → (w : ℕ) → Keeps (Reached file Whole (k + 1)) (child_step w (state i o n b (sent c)))
    unfolding child_step
    sent_step [] f w = absurd (omega (arith, f.fits.0))
    sent_step (x ∷ c) f w =
        let t = f.clock in
        let (a, few, z) = f.fits in
        rw (take-all c 99 (omega arith), drop-all c 99 (omega arith))
          record {
            ph = writes (x ∷ c);
            i = i;
            o = o;
            n = n;
            b = b || length (x ∷ c) == 100;
            shape = refl;
            facts = record {
              fits = f.fits;
              clock = omega arith;
              messages = f.messages;
              overran =
                  overrun-again b (ltb 99 (length i)) (length (x ∷ c)) (λ e. f.full (omega arith))
                  ∙ f.overran;
              full = full-noted b _;
              content = f.content;
            };
          }

    pub parent-Reached :
        (ph : Phase)
        → Facts file Whole k ph i o n b
        → Keeps (Reached file Whole (k + 1)) (parent_step (state i o n b ph))
    unfolding parent_step
    parent-Reached asks f = asks_step i f
    parent-Reached (sends c) f =
        let t = f.clock in
        record {
          ph = sent c;
          i = i;
          o = o;
          n = n;
          b = b;
          shape = refl;
          facts = record {
            fits = f.fits;
            clock = omega arith;
            messages = f.messages;
            overran = f.overran;
            full = f.full;
            content = f.content;
          };
        }
    parent-Reached (sent c) f = tt
    parent-Reached (writes c) f = tt
    parent-Reached (answers c) f = tt
    parent-Reached answered f =
        let t = f.clock in
        record {
          ph = asks;
          i = i;
          o = o;
          n = n;
          b = b;
          shape = refl;
          facts = record {
            fits = tt;
            clock = omega arith;
            messages = f.messages;
            overran = f.overran;
            full = f.full;
            content = f.content;
          };
        }
    parent-Reached last f = tt
    parent-Reached over f = tt

    pub child-Reached :
        (w : ℕ) (ph : Phase)
        → (Whole → 100 ≤ w)
        → Facts file Whole k ph i o n b
        → Keeps (Reached file Whole (k + 1)) (child_step w (state i o n b ph))
    unfolding child_step
    child-Reached w asks all f = tt
    child-Reached w (sends c) all f = tt
    child-Reached w (sent c) all f = sent_step c f w
    child-Reached w (writes c) all f =
        let t = f.clock in
        record {
          ph = answers c;
          i = i;
          o = o ++ take w c;
          n = n;
          b = b;
          shape = refl;
          facts = record {
            fits = f.fits;
            clock = omega arith;
            messages = f.messages;
            overran = f.overran;
            full = f.full;
            content = λ h.
                ap (λ (l : List ℕ). (o ++ l) ++ i)
                  (take-all c w (let (a, few, z) = f.fits in let v = all h in omega arith))
                ∙ append_assoc o c i
                ∙ f.content h;
          };
        }
    child-Reached w (answers c) all f =
        let t = f.clock in
        record {
          ph = answered;
          i = i;
          o = o;
          n = n + (if ltb (length c) 100 then 1 else 0);
          b = b;
          shape = refl;
          facts = record {
            fits = tt;
            clock = omega arith;
            messages = omega (arith, owed-Chunk c i f.fits, f.messages);
            overran = f.overran;
            full = λ e. absurd (omega arith);
            content = f.content;
          };
        }
    child-Reached w answered all f = tt
    child-Reached w last all f =
        let t = f.clock in
        record {
          ph = over;
          i = i;
          o = o;
          n = n;
          b = b;
          shape = refl;
          facts = record {
            fits = f.fits;
            clock = omega arith;
            messages = f.messages;
            overran = f.overran;
            full = f.full;
            content = f.content;
          };
        }
    child-Reached w over all f = tt
