-- ===== src/Pool/Order.antt =====
-- A WorkerPool with one worker works as a loop over the jobs would (server-5204/util/thread.h).
use expert_spoon.Prelude.{
  ◌≡◌, refl, sym, ap, ◌∙◌, subst, true, Option, none, some, List, [], ◌∷◌, ◌++◌, append_assoc,
  append-nil, arith, length, inl, inr, Bool-cases,
}
use expert_spoon.Pool.Reader.{read_byte-Reading, take_result-Taking, take_result-Missing}
use expert_spoon.Pool.{
  Stage, taking, working, pushing, writing, releasing, Worker, Shared, Pool, push, start, at_stage,
  take_job, new, create, advance_stage, advance, Run, begins, starts, pushes, advances, reads, pops,
  misses,
}

module _ {ℓ} {J W : Type ℓ} (proc : W → J → W × J) where
  -- One worker's results, one job after the other.
  abbrev pub sequential : W → List J → List J
  sequential v [] = []
  sequential v (j ∷ js) = (proc v j).1 ∷ sequential (proc v j).0 js

  -- The results that a worker will push before it is done with these jobs.
  abbrev pub ahead : W → Stage J → List J → List J
  ahead v taking js = sequential v js
  ahead v (working j) js = sequential v (j ∷ js)
  ahead v (pushing j) js = j ∷ sequential v js
  ahead v writing js = sequential v js
  ahead v releasing js = sequential v js

  -- What further jobs would bring, after those pushed and in the pool as it is.
  abbrev Same : W → List J → List J → Worker J W → Shared J → Type ℓ
  Same v ins outs w s =
      (more : List J)
      → sequential v (ins ++ more) ≡ outs ++ (s.results ++ ahead w.self w.stage (s.jobs ++ more))

  abbrev StepSame : Worker J W → Shared J → Option (Worker J W × Shared J) → Type ℓ
  StepSame w s none = s ≡ s
  StepSame w s (some (w', s')) =
      (more : List J)
      → s.results ++ ahead w.self w.stage (s.jobs ++ more)
        ≡ s'.results ++ ahead w'.self w'.stage (s'.jobs ++ more)

  advance-StepSame :
      (v : W) (stage : Stage J) (s : Shared J)
      → StepSame (at_stage v stage) s (advance_stage proc v stage s)
  unfolding advance_stage at_stage take_job
  advance-StepSame v taking s = from_jobs s.jobs refl
    where
      from_jobs : (js : List J) → s.jobs ≡ js → StepSame (at_stage v taking) s (take_job v js s)
      from_jobs [] e = refl
      from_jobs (j ∷ js) e = λ more. ap (λ x. s.results ++ sequential v (x ++ more)) e
  advance-StepSame v (working j) s = λ more. refl
  advance-StepSame v (pushing j) s = elim (Bool-cases s.held) [
    | inl e ↦ rw e refl
    | inr e ↦ rw e (λ more. sym (append_assoc s.results (j ∷ []) (sequential v (s.jobs ++ more))))
  ]
  advance-StepSame v writing s = λ more. refl
  advance-StepSame v releasing s = λ more. refl

  -- One worker, started with `v`.
  record Alone (v : W) (ins outs : List J) (p : Pool J W) : Type ℓ where
    worker : Worker J W
    workers : p.workers ≡ worker ∷ []
    started : p.started ≡ true
    same : Same v ins outs worker p.shared

  alone_at :
      (xs : List (Worker J W)) (w x : Worker J W) (ys : List (Worker J W))
      → xs ++ w ∷ ys ≡ x ∷ []
      → (w ≡ x) × ((y : Worker J W) → xs ++ y ∷ ys ≡ y ∷ [])
  alone_at [] w x [] e = (cc, λ y. refl)
  alone_at [] w x (z ∷ ys) e = absurd (omega (arith, ap length e))
  alone_at (z ∷ []) w x ys e = absurd (omega (arith, ap length e))
  alone_at (z ∷ z' ∷ xs) w x ys e = absurd (omega (arith, ap length e))

  advances-Alone :
      {v : W} {ins outs : List J} (p : Pool J W) (xs : List (Worker J W)) (w w' : Worker J W)
      (ys : List (Worker J W)) (s : Shared J)
      → Alone v ins outs p
      → p.workers ≡ xs ++ w ∷ ys
      → advance proc w p.shared ≡ some (w', s)
      → Alone v ins outs (record p { workers = xs ++ w' ∷ ys; shared = s })
  unfolding at_stage
  advances-Alone {v} {ins} {outs} p xs w w' ys s a place e =
      let only = alone_at xs w a.worker ys (sym place ∙ a.workers) in
      let step : StepSame w p.shared (some (w', s)) =
        subst (StepSame w p.shared) e (advance-StepSame w.self w.stage p.shared) in
      record {
        worker = w';
        workers = only.1 w';
        started = a.started;
        same = λ more.
            subst (λ x. Same v ins outs x p.shared) (sym only.0) a.same more
            ∙ ap (λ x. outs ++ x) (step more);
      }

  start_again : (vs : List (Option W)) (p : Pool J W) → p.started ≡ true → start vs p ≡ p
  unfolding start
  start_again vs p h = rw h refl

  with_shared :
      {v : W} {ins outs ins' outs' : List J} {p : Pool J W} (s : Shared J) (a : Alone v ins outs p)
      → Same v ins' outs' a.worker s
      → Alone v ins' outs' (record p { shared = s })
  with_shared s a h = record {
    worker = a.worker;
    workers = a.workers;
    started = a.started;
    same = h;
  }

  abbrev pub one_worker : W → Pool J W
  one_worker v = start (some v ∷ []) new

  one_worker-Alone : (v : W) → Alone v [] [] (one_worker v)
  unfolding start new create at_stage
  one_worker-Alone v = record {
    worker = at_stage v taking;
    workers = refl;
    started = refl;
    same = λ more. refl;
  }

  Run-Alone :
      {v : W} {ins outs : List J} {p : Pool J W}
      → Run proc (one_worker v) ins outs p
      → Alone v ins outs p
  unfolding push
  Run-Alone {v} begins = one_worker-Alone v
  Run-Alone {v} {ins} {outs} (starts {p = p} vs run) =
      let a = Run-Alone run in subst (Alone v ins outs) (sym (start_again vs p a.started)) a
  Run-Alone {v} (pushes {ins = ins} {outs = outs} {p = p} j run) =
      let a = Run-Alone run in
      with_shared (push j p.shared) a (λ more.
        ap (sequential v) (append_assoc ins (j ∷ []) more)
        ∙ a.same (j ∷ more)
        ∙ ap (λ x. outs ++ (p.shared.results ++ ahead a.worker.self a.worker.stage x))
            (sym (append_assoc p.shared.jobs (j ∷ []) more)))
  Run-Alone (advances xs w w' ys s run place e) =
      advances-Alone _ xs w w' ys s (Run-Alone run) place e
  Run-Alone {v} (reads {ins = ins} {outs = outs} {s = s} run e) =
      let a = Run-Alone run in
      with_shared s a
        (subst (Same v ins outs a.worker) (sym (read_byte-Reading _ _ e).change) a.same)
  Run-Alone {v} (pops {ins = ins} {outs = outs} {p = p} {j = j} {s = s} run h e) =
      let a = Run-Alone run in
      let t = take_result-Taking j p.shared s e in
      with_shared s a (
        subst (Same v ins (outs ++ j ∷ []) a.worker) (sym t.change) (λ more.
          a.same more
          ∙ ap (λ x. outs ++ (x ++ ahead a.worker.self a.worker.stage (p.shared.jobs ++ more)))
              t.first
          ∙ sym (
              append_assoc outs (j ∷ [])
                (s.results ++ ahead a.worker.self a.worker.stage (p.shared.jobs ++ more)))))
  Run-Alone {v} (misses {ins = ins} {outs = outs} {s = s} run h e) =
      let a = Run-Alone run in
      with_shared s a
        (subst (Same v ins outs a.worker) (sym (take_result-Missing _ _ e).change) a.same)

  -- A WorkerPool started with one worker does the jobs as a loop over them would, the worker's state
  -- passed on: the results popped, those that wait and those still to be made are, in this order,
  -- the loop's.
  pub Run-sequential :
      (v : W) {ins outs : List J} {p : Pool J W}
      → Run proc (one_worker v) ins outs p
      → (w : Worker J W) × (p.workers ≡ w ∷ [])
        × (sequential v ins ≡ outs ++ (p.shared.results ++ ahead w.self w.stage p.shared.jobs))
  Run-sequential v {ins} {outs} {p} run =
      let a = Run-Alone run in
      (
        a.worker,
        a.workers,
        ap (sequential v) (sym (append-nil ins))
            ∙ a.same []
            ∙ ap (λ x. outs ++ (p.shared.results ++ ahead a.worker.self a.worker.stage x))
                (append-nil p.shared.jobs),
      )
