-- ===== src/Pool/Progress.antt =====
-- A WorkerPool comes to rest (server-5204/util/thread.h): no deadlock, and a bound on the workers' steps.
use expert_spoon.Prelude.{
  ℕ, zero, suc, ◌+◌, ◌*◌, ◌≤◌, ◌≡◌, refl, ap, subst, true, false, Option, none, some, List, [], ◌∷◌,
  ◌++◌, length, arith, inl, inr, Bool-cases,
}
use expert_spoon.Pool.Counts.{total, total-append, flag, Counted, holds, holding}
use expert_spoon.Pool.{
  Stage, taking, working, pushing, writing, releasing, Worker, Shared, Pool, at_stage, take_job,
  advance_stage, advance,
}

module _ {ℓ} {J : Type ℓ} where
  -- The steps that a worker makes until it takes the next job.
  abbrev pub steps_left : Stage J → ℕ
  steps_left taking = 0
  steps_left (working j) = 4
  steps_left (pushing j) = 3
  steps_left writing = 2
  steps_left releasing = 1

module _ {ℓ} {J W : Type ℓ} where
  abbrev pub left : Worker J W → ℕ
  left w = steps_left w.stage

  -- The steps until all jobs are done.
  abbrev pub work : Pool J W → ℕ
  work p = 5 * length p.shared.jobs + total left p.workers

  record Found (f : Worker J W → ℕ) (ws : List (Worker J W)) : Type ℓ where
    before : List (Worker J W)
    worker : Worker J W
    behind : List (Worker J W)
    place : ws ≡ before ++ worker ∷ behind
    counts : 1 ≤ f worker

  find_worker : (f : Worker J W → ℕ) (ws : List (Worker J W)) → 1 ≤ total f ws → Found f ws
  find_worker f [] h = absurd (omega (arith, h))
  find_worker f (w ∷ ws) h = here (f w) refl (λ k. find_worker f ws k)
    where
      here : (n : ℕ) → f w ≡ n → (1 ≤ total f ws → Found f ws) → Found f (w ∷ ws)
      here (suc n) e rest = record {
        before = [];
        worker = w;
        behind = ws;
        place = refl;
        counts = omega (arith, e);
      }
      here zero e rest =
          let r = rest (omega (arith, h, e)) in
          record {
            before = w ∷ r.before;
            worker = r.worker;
            behind = r.behind;
            place = ap (λ x. w ∷ x) r.place;
            counts = r.counts;
          }

module _ {ℓ} {J W : Type ℓ} (proc : W → J → W × J) where
  -- A worker that has a step.
  pub record CanAdvance (p : Pool J W) : Type ℓ where
    pub before : List (Worker J W)
    pub worker : Worker J W
    pub behind : List (Worker J W)
    pub place : p.workers ≡ before ++ worker ∷ behind
    pub next : Worker J W
    pub shared : Shared J
    pub step : advance proc worker p.shared ≡ some (next, shared)

  abbrev Steps : W → Stage J → Shared J → Type ℓ
  Steps v stage s =
      (w' : Worker J W) × (s' : Shared J) × (advance_stage proc v stage s ≡ some (w', s'))

  holder_moves : (v : W) (stage : Stage J) (s : Shared J) → 1 ≤ holds stage → Steps v stage s
  unfolding advance_stage
  holder_moves v taking s h = absurd (omega (arith, h))
  holder_moves v (working j) s h = absurd (omega (arith, h))
  holder_moves v (pushing j) s h = absurd (omega (arith, h))
  holder_moves v writing s h = (_, _, refl)
  holder_moves v releasing s h = (_, _, refl)

  free_moves :
      (v : W) (stage : Stage J) (s : Shared J)
      → s.held ≡ false
      → 1 ≤ steps_left stage
      → Steps v stage s
  unfolding advance_stage
  free_moves v taking s e h = absurd (omega (arith, h))
  free_moves v (working j) s e h = (_, _, refl)
  free_moves v (pushing j) s e h =
      (at_stage v writing, record s { results = s.results ++ j ∷ []; held = true }, rw e refl)
  free_moves v writing s e h = (_, _, refl)
  free_moves v releasing s e h = (_, _, refl)

  taker_moves :
      (v : W) (stage : Stage J) (s : Shared J)
      → steps_left stage ≡ 0
      → 1 ≤ length s.jobs
      → Steps v stage s
  unfolding advance_stage take_job
  taker_moves v taking s t h = from_jobs s.jobs refl
    where
      from_jobs :
          (js : List J)
          → s.jobs ≡ js
          → (w' : Worker J W) × (s' : Shared J) × (take_job v js s ≡ some (w', s'))
      from_jobs [] e = absurd (omega (arith, h, ap length e))
      from_jobs (j ∷ js) e = (_, _, refl)
  taker_moves v (working j) s t h = absurd (omega (arith, t))
  taker_moves v (pushing j) s t h = absurd (omega (arith, t))
  taker_moves v writing s t h = absurd (omega (arith, t))
  taker_moves v releasing s t h = absurd (omega (arith, t))

  can :
      (p : Pool J W) (xs : List (Worker J W)) (w : Worker J W) (ys : List (Worker J W))
      → p.workers ≡ xs ++ w ∷ ys
      → Steps w.self w.stage p.shared
      → CanAdvance p
  can p xs w ys e (w', s', h) = record {
    before = xs;
    worker = w;
    behind = ys;
    place = e;
    next = w';
    shared = s';
    step = h;
  }

  first_takes :
      (p : Pool J W) (ws : List (Worker J W))
      → p.workers ≡ ws
      → 1 ≤ length ws
      → total left p.workers ≡ 0
      → 1 ≤ length p.shared.jobs
      → CanAdvance p
  first_takes p [] e n t h = absurd (omega (arith, n))
  first_takes p (w ∷ ws) e n t h =
      can p [] w ws e (taker_moves w.self w.stage p.shared (omega (arith, t, ap (total left) e)) h)

  -- While there is work some worker has a step.
  pub can_advance : (p : Pool J W) → Counted p → 1 ≤ length p.workers → 1 ≤ work p → CanAdvance p
  can_advance p c n h = elim (Bool-cases p.shared.held) [
    | inl e ↦
        let r = find_worker holding p.workers (omega (arith, c.one_holder, ap flag e)) in
        can p r.before r.worker r.behind r.place
          (holder_moves r.worker.self r.worker.stage p.shared r.counts)
    | inr e ↦ unheld e (total left p.workers) refl
  ]
    where
      unheld : p.shared.held ≡ false → (k : ℕ) → total left p.workers ≡ k → CanAdvance p
      unheld e zero t = first_takes p p.workers refl n t (omega (arith, h, t))
      unheld e (suc k) t =
          let r = find_worker left p.workers (omega (arith, t)) in
          can p r.before r.worker r.behind r.place
            (free_moves r.worker.self r.worker.stage p.shared e r.counts)

  abbrev OneLess : Worker J W → Shared J → Option (Worker J W × Shared J) → Type 0
  OneLess w s none = Unit
  OneLess w s (some (w', s')) = 5 * length s.jobs + left w ≡ suc (5 * length s'.jobs + left w')

  advance-OneLess :
      (v : W) (stage : Stage J) (s : Shared J)
      → OneLess (at_stage v stage) s (advance_stage proc v stage s)
  unfolding advance_stage at_stage take_job
  advance-OneLess v taking s = from_jobs s.jobs refl
    where
      from_jobs : (js : List J) → s.jobs ≡ js → OneLess (at_stage v taking) s (take_job v js s)
      from_jobs [] e = tt
      from_jobs (j ∷ js) e = omega (arith, ap length e)
  advance-OneLess v (working j) s = omega arith
  advance-OneLess v (pushing j) s = elim (Bool-cases s.held) [
    | inl e ↦ rw e tt
    | inr e ↦ rw e (omega arith)
  ]
  advance-OneLess v writing s = omega arith
  advance-OneLess v releasing s = omega arith

  -- Every step of a worker leaves one step less to make.
  pub work-advance :
      (p : Pool J W) (xs : List (Worker J W)) (w w' : Worker J W) (ys : List (Worker J W))
      (s : Shared J)
      → p.workers ≡ xs ++ w ∷ ys
      → advance proc w p.shared ≡ some (w', s)
      → work p ≡ suc (work (record p { workers = xs ++ w' ∷ ys; shared = s }))
  unfolding at_stage
  work-advance p xs w w' ys s place e =
      let step : OneLess w p.shared (some (w', s)) =
        subst (OneLess w p.shared) e (advance-OneLess w.self w.stage p.shared) in
      omega (
        arith,
        step,
        ap (total left) place,
        total-append left xs (w ∷ ys),
        total-append left xs (w' ∷ ys),
      )
