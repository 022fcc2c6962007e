-- ===== src/Tests/Pools.antt =====
-- A pool whose workers add 10 to a number and count their jobs, and a queue of numbers.
use expert_spoon.Prelude.{
  ℕ, suc, ◌+◌, ◌≡◌, ◌≢◌, arith, refl, true, false, some, List, [], ◌∷◌, ◌++◌,
}
use expert_spoon.Queues.{SelectableQueue, selected, push_selectable, pop_selectable}
use expert_spoon.Queues
use expert_spoon.Queues.Calls.{Pops, pop-Pops}
use expert_spoon.Pool.{
  Stage, taking, working, pushing, writing, releasing, Worker, Shared, Pool, Run, begins, starts,
  pushes, advances, reads, pops, new, start, create, push, at_stage, take_job, advance_stage,
  read_byte, take_item, take_result, nothing_there,
}
use expert_spoon.Pool.Counts.{take_result-finds}
use expert_spoon.Pool.Order.{one_worker, ahead, Run-sequential}
use expert_spoon.Pool.Finish.{Finishes, Run-Finishes}

abbrev adds : ℕ → ℕ → ℕ × ℕ
adds n j = (suc n, j + 10)

abbrev one_at : Stage ℕ → ℕ → List (Worker ℕ ℕ)
one_at stage n = record { self = n; stage = stage } ∷ []

abbrev after_read : Pool ℕ ℕ
after_read = record {
  started = true;
  workers = one_at releasing 1;
  shared = record { jobs = 2 ∷ []; results = 11 ∷ []; bytes = 0; held = true; selected = true };
}

abbrev after_pop : Pool ℕ ℕ
after_pop = record {
  started = true;
  workers = one_at taking 1;
  shared = record { jobs = 2 ∷ []; results = []; bytes = 0; held = false; selected = false };
}

abbrev nothing_shared : Shared ℕ
nothing_shared = record { jobs = []; results = []; bytes = 0; held = false; selected = false }

abbrev ready : Pool ℕ ℕ
ready = record { started = true; workers = one_at taking 0; shared = nothing_shared }

-- Jobs 1 and 2 are pushed; the worker does the first, and its byte is read while it holds the mutex.
got_to_read :
    {origin : Pool ℕ ℕ} → Run adds origin [] [] ready → Run adds origin (1 ∷ 2 ∷ []) [] after_read
unfolding at_stage push advance_stage take_job read_byte
got_to_read run =
    reads
      (advances [] (record { self = 1; stage = writing }) _ [] _
        (advances [] (record { self = 1; stage = pushing 11 }) _ [] _
          (advances [] (record { self = 0; stage = working 1 }) _ [] _
            (advances [] (record { self = 0; stage = taking }) _ [] _ (pushes 2 (pushes 1 run)) refl
              refl)
            refl refl)
          refl refl)
        refl refl)
      refl

got_to_pop :
    {origin : Pool ℕ ℕ}
    → Run adds origin [] [] ready
    → Run adds origin (1 ∷ 2 ∷ []) (11 ∷ []) after_pop
unfolding at_stage advance_stage take_result take_item
got_to_pop run =
    pops (advances [] (record { self = 1; stage = releasing }) _ [] _ (got_to_read run) refl refl)
      refl refl

from_new : Run adds new [] [] ready
unfolding start new create at_stage
from_new = starts (some 0 ∷ []) begins

from_one : Run adds (one_worker adds 0) [] [] ready
unfolding start new create at_stage
from_one = begins

take_result-finds_example : take_result after_read.shared ≢ nothing_there nothing_shared
take_result-finds_example = take_result-finds adds (got_to_read from_new) refl nothing_shared

Run-sequential_example :
    (w : Worker ℕ ℕ) × (after_pop.workers ≡ w ∷ [])
    × (11 ∷ 12 ∷ [] ≡ (11 ∷ []) ++ ([] ++ ahead adds w.self w.stage (2 ∷ [])))
Run-sequential_example = Run-sequential adds 0 (got_to_pop from_one)

Run-Finishes_example : Finishes adds (λ j. j + 10) after_pop (1 ∷ 2 ∷ []) (11 ∷ [])
Run-Finishes_example =
    Run-Finishes adds (λ j. j + 10) (λ v j. refl) (got_to_pop from_new) (omega arith)

-- A queue that another thread fills during the wait.
abbrev two_numbers : Queues.Queue ℕ
two_numbers = record { items = []; held = false }

abbrev one_wait : List (Queues.Wait ℕ)
one_wait = Queues.woken (5 ∷ 6 ∷ []) ∷ []

pop-Pops_example : Pops true true one_wait two_numbers (Queues.pop true true one_wait two_numbers)
pop-Pops_example = pop-Pops true true one_wait two_numbers
