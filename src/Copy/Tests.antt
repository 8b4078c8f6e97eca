-- ===== src/Copy/Tests.antt =====
-- The copy of a file of three bytes, and each theorem at it.
use linux_programming.Prelude.{ℕ, ◌+◌, ◌*◌, ◌/◌, ◌≤◌, false, List, [], ◌∷◌, ◌≡◌, ◌⊎◌, refl, length}
use linux_programming.Copy.{System, start, parent_step, child_step}
use linux_programming.Copy.Phases.{asks, sends, sent, writes, answers, answered, last, over, state}
use linux_programming.Copy.Runs.{
  Run, begin, parent_goes, child_goes, Done, Goes, Left, Run-steps, Run-Goes, Run-copies,
}

abbrev file : List ℕ
file = 7 ∷ 8 ∷ 9 ∷ []

abbrev stored : ℕ → ℕ
stored k = 100

abbrev end : System
end = state [] file 1 false over

run : Run stored file 8 end
unfolding start parent_step child_step
run =
    child_goes 7 (state [] file 1 false last) end
      (parent_goes 6 (state [] file 1 false asks) _
        (parent_goes 5 (state [] file 1 false answered) _
          (child_goes 4 (state [] file 0 false (answers file)) _
            (child_goes 3 (state [] [] 0 false (writes file)) _
              (child_goes 2 (state [] [] 0 false (sent file)) _
                (parent_goes 1 (state [] [] 0 false (sends file)) _
                  (parent_goes 0 (state file [] 0 false asks) _ begin refl) refl)
                refl)
              refl)
            refl)
          refl)
        refl)
      refl

Run-steps_example :
    (8 ≤ 6 * ((length file + 99) / 100) + 2)
    × (Done stored file end → ◌≡◌ {A = ℕ} 8 (6 * ((length file + 99) / 100) + 2))
Run-steps_example = Run-steps stored file 8 end run

Run-Goes_example : Done stored file end ⊎ Goes stored file 8 end
Run-Goes_example = Run-Goes stored file 8 end run

Run-copies_example : Left stored file end
Run-copies_example = Run-copies stored file 8 end run (refl, refl)
