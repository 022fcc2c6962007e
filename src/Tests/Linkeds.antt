-- ===== src/Tests/Linkeds.antt =====
-- A list of three nodes, of which the middle one is removed and the first popped.
use expert_spoon.Prelude.{ℕ, ◌≡◌, refl, none, [], ◌∷◌, arith}
use expert_spoon.LinkedList.{
  Node, LinkedList, new, remove, push_back, iterate, next, link_prev, link_next,
}
use expert_spoon.LinkedList.Sequence.{IsList}
use expert_spoon.LinkedList.Refine.{Run, no_call, after_push, after_remove, Shows, Run-Shows}

abbrev no_links : ℕ → Node
no_links x = record { prev = none; next = none }

no_nodes-IsList : IsList (new no_links) []
unfolding new
no_nodes-IsList = record {
  head_first = refl;
  tail_last = refl;
  links = tt;
  distinct = tt;
  counted = refl;
}

abbrev three : LinkedList
three = push_back 5 (push_back 4 (push_back 3 (new no_links)))

three-Run : Run (new no_links) [] three (3 ∷ 4 ∷ 5 ∷ [])
three-Run =
    after_push 5 (after_push 4 (after_push 3 no_call tt (omega arith)) (refl, tt) (omega arith))
      (refl, (refl, tt)) (omega arith)

without_middle_runs : iterate 5 (remove 4 three).nodes (remove 4 three).head ≡ 3 ∷ 5 ∷ []
unfolding iterate remove push_back new next link_prev link_next
without_middle_runs = refl

Run-Shows_example : Shows (remove 4 three) (3 ∷ 5 ∷ [])
Run-Shows_example =
    Run-Shows (after_remove (3 ∷ []) 4 (5 ∷ []) three-Run (omega arith)) no_nodes-IsList
