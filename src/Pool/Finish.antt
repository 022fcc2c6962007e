-- ===== src/Pool/Finish.antt =====
-- A WorkerPool that is left to its workers has done every job (server-5204/util/thread.h).
use expert_spoon.Prelude.{
  ℕ, zero, suc, ◌+◌, ◌≤◌, ◌≡◌, refl, List, [], ◌∷◌, ◌++◌, length, length-append, arith,
}
use expert_spoon.Pool.Counts.{total, Run-Counted, new-Counted}
use expert_spoon.Pool.Conserve.{to_do, in_hand, carried, Run-Conserved}
use expert_spoon.Pool.Progress.{steps_left, left, work, can_advance, work-advance}
use expert_spoon.Pool.{
  Stage, taking, working, pushing, writing, releasing, Worker, Pool, new, Run, begins, advances,
}

module _ {ℓ} {J : Type ℓ} (f : J → ℕ) (g : J → J) where
  idle : (stage : Stage J) → steps_left stage ≡ 0 → in_hand f g stage ≡ 0
  idle taking e = refl
  idle (working j) e = absurd (omega (arith, e))
  idle (pushing j) e = absurd (omega (arith, e))
  idle writing e = refl
  idle releasing e = refl

  no_jobs : (js : List J) → length js ≡ 0 → to_do f g js ≡ 0
  no_jobs [] h = refl
  no_jobs (j ∷ js) h = absurd (omega (arith, h))

module _ {ℓ} {J W : Type ℓ} (f : J → ℕ) (g : J → J) where
  carried_idle : (ws : List (Worker J W)) → total left ws ≡ 0 → total (carried f g) ws ≡ 0
  carried_idle [] h = refl
  carried_idle (w ∷ ws) h =
      omega (arith, idle f g w.stage (omega (arith, h)), carried_idle ws (omega (arith, h)))

module _ {ℓ} {J W : Type ℓ} (proc : W → J → W × J) where
  -- A pool at rest that comes of `origin`, with the same jobs pushed and the same results popped.
  record Rested (origin : Pool J W) (ins outs : List J) : Type ℓ where
    pool : Pool J W
    reached : Run proc origin [] [] pool
    run : Run proc new ins outs pool
    at_rest : work pool ≡ 0

  rest_within :
      (n : ℕ) {origin : Pool J W} {ins outs : List J} (p : Pool J W)
      → Run proc origin [] [] p
      → Run proc new ins outs p
      → 1 ≤ length p.workers
      → work p ≡ n
      → Rested origin ins outs
  rest_within zero p reached run some_worker e = record {
    pool = p;
    reached = reached;
    run = run;
    at_rest = e;
  }
  rest_within (suc n) p reached run some_worker e =
      let c =
        can_advance proc p (Run-Counted proc run (new-Counted proc)) some_worker
          (omega (arith, e)) in
      rest_within n (record p { workers = c.before ++ c.next ∷ c.behind; shared = c.shared })
        (advances c.before c.worker c.next c.behind c.shared reached c.place c.step)
        (advances c.before c.worker c.next c.behind c.shared run c.place c.step)
        (omega (arith, length-append c.before (c.next ∷ c.behind)))
        (omega
          (arith, e, work-advance proc p c.before c.worker c.next c.behind c.shared c.place c.step))

  -- The pool that the workers come to, with every job's result popped or waiting.
  pub record Finishes (g : J → J) (origin : Pool J W) (ins outs : List J) : Type ℓ where
    pub pool : Pool J W
    pub reached : Run proc origin [] [] pool
    pub at_rest : work pool ≡ 0
    pub done : (f : J → ℕ) → total (λ j. f (g j)) ins ≡ total f outs + total f pool.shared.results

  -- A WorkerPool with a worker, after any steps from a new one on, comes to rest by steps from there
  -- on that push and pop nothing; then the results popped and those that wait are, counted by any
  -- measure, those of all jobs pushed, none lost and none done twice, where `proc` makes of a job
  -- the same result in every worker and the pipe has room for the bytes.
  pub Run-Finishes :
      (g : J → J) {ins outs : List J} {p : Pool J W}
      → ((v : W) (j : J) → (proc v j).1 ≡ g j)
      → Run proc new ins outs p
      → 1 ≤ length p.workers
      → Finishes g p ins outs
  Run-Finishes g {ins} {outs} {p} does run some_worker =
      let r = rest_within (work p) p begins run some_worker refl in
      record {
        pool = r.pool;
        reached = r.reached;
        at_rest = r.at_rest;
        done = λ f. omega (
          arith,
          r.at_rest,
          (Run-Conserved proc f g does r.run).balance,
          carried_idle f g r.pool.workers (omega (arith, r.at_rest)),
          no_jobs f g r.pool.shared.jobs (omega (arith, r.at_rest)),
        );
      }
