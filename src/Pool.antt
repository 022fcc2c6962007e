-- ===== src/Pool.antt =====
-- WorkerPool (server-5204/util/thread.h) as steps of its threads: the clients that push jobs, the workers
-- of `_run_worker`, and the one reader of the results. A worker's `proc` is a parameter, on the state of its
-- own that a class `W` may have. Calls of pthreads, read and write succeed here; Queues has their failures,
-- which end the process or the call. The pipe has room for every byte.
pub mod Reader
pub mod Counts
pub mod Progress
pub mod Finish
pub mod Order
pub mod Conserve
use expert_spoon.Prelude.{
  ℕ, zero, suc, Bool, true, false, Option, none, some, List, [], ◌∷◌, ◌++◌, if◌then◌else◌, ◌≡◌,
}

-- Where a worker stands in its loop: before `jobs.pop`, before `proc`, before the lock of `results.push`,
-- between the item and the byte of `results.push`, and before its unlock.
pub data Stage {ℓ} (J : Type ℓ) : Type ℓ where
  taking : Stage J
  working : J → Stage J
  pushing : J → Stage J
  writing : Stage J
  releasing : Stage J

pub record Worker {ℓ} (J W : Type ℓ) : Type ℓ where
  pub self : W
  pub stage : Stage J

-- What the threads share: the items of `jobs` and of `results`, the bytes in the pipe, whether a worker
-- holds the mutex of `results`, and whether the reader has read a byte and has yet to take an item.
pub record Shared {ℓ} (J : Type ℓ) : Type ℓ where
  pub jobs : List J
  pub results : List J
  pub bytes : ℕ
  pub held : Bool
  pub selected : Bool

-- `num_workers` is only written.
pub record Pool {ℓ} (J W : Type ℓ) : Type ℓ where
  pub started : Bool
  pub workers : List (Worker J W)
  pub shared : Shared J

-- `results.pop` behind its read: the item, -1 for want of one, or the wait for the mutex.
pub data Taken {ℓ} (J : Type ℓ) : Type ℓ where
  taken : J → Shared J → Taken J
  nothing_there : Shared J → Taken J
  locked_out : Taken J

module _ {ℓ} {J : Type ℓ} where
  -- WorkerPool::push
  unfoldable pub push : J → Shared J → Shared J
  push j s = record s { jobs = s.jobs ++ j ∷ [] }

  -- The reader: the read of a byte, which waits while there is none, and then the item.
  unfoldable pub read_byte : Shared J → Option (Shared J)
  read_byte s = elim s.selected [
    | true ↦ none
    | false ↦ elim s.bytes [ zero ↦ none | suc n ↦ some (record s { bytes = n; selected = true }) ]
  ]

  unfoldable pub take_item : List J → Shared J → Taken J
  take_item [] s = nothing_there (record s { selected = false })
  take_item (j ∷ js) s = taken j (record s { results = js; selected = false })

  unfoldable pub take_result : Shared J → Taken J
  take_result s = if s.held then locked_out else take_item s.results s

module _ {ℓ} {J W : Type ℓ} where
  unfoldable pub at_stage : W → Stage J → Worker J W
  at_stage v stage = record { self = v; stage = stage }

  unfoldable pub take_job : W → List J → Shared J → Option (Worker J W × Shared J)
  take_job v [] s = none
  take_job v (j ∷ js) s = some (at_stage v (working j), record s { jobs = js })

  -- WorkerPool::start with the workers that `pthread_create` made.
  unfoldable pub create : List (Option W) → List (Worker J W)
  create [] = []
  create (none ∷ vs) = create vs
  create (some v ∷ vs) = at_stage v taking ∷ create vs

  unfoldable pub start : List (Option W) → Pool J W → Pool J W
  start vs p =
      if p.started then p else record p { started = true; workers = p.workers ++ create vs }

  -- WorkerPool::WorkerPool
  unfoldable pub new : Pool J W
  new = record {
    started = false;
    workers = [];
    shared = record { jobs = []; results = []; bytes = 0; held = false; selected = false };
  }

module _ {ℓ} {J W : Type ℓ} (proc : W → J → W × J) where
  -- The next step of a worker, if it has one: it has none while it waits for a job or for the mutex.
  unfoldable pub advance_stage : W → Stage J → Shared J → Option (Worker J W × Shared J)
  advance_stage v taking s = take_job v s.jobs s
  advance_stage v (working j) s = let done = proc v j in some (at_stage done.0 (pushing done.1), s)
  advance_stage v (pushing j) s =
      if s.held
      then none
      else some (at_stage v writing, record s { results = s.results ++ j ∷ []; held = true })
  advance_stage v writing s = some (at_stage v releasing, record s { bytes = suc s.bytes })
  advance_stage v releasing s = some (at_stage v taking, record s { held = false })

  abbrev pub advance : Worker J W → Shared J → Option (Worker J W × Shared J)
  advance w s = advance_stage w.self w.stage s

  -- What has happened in a pool since it was `origin`: the jobs pushed and the results popped, in order, and
  -- the steps of the threads in any order.
  pub data Run (origin : Pool J W) : List J → List J → Pool J W → Type ℓ where
    begins : Run origin [] [] origin
    starts :
        {ins outs : List J} {p : Pool J W} (vs : List (Option W))
        → Run origin ins outs p
        → Run origin ins outs (start vs p)
    pushes :
        {ins outs : List J} {p : Pool J W} (j : J)
        → Run origin ins outs p
        → Run origin (ins ++ j ∷ []) outs (record p { shared = push j p.shared })
    advances :
        {ins outs : List J} {p : Pool J W} (xs : List (Worker J W)) (w w' : Worker J W)
        (ys : List (Worker J W)) (s : Shared J)
        → Run origin ins outs p
        → p.workers ≡ xs ++ w ∷ ys
        → advance w p.shared ≡ some (w', s)
        → Run origin ins outs (record p { workers = xs ++ w' ∷ ys; shared = s })
    reads :
        {ins outs : List J} {p : Pool J W} {s : Shared J}
        → Run origin ins outs p
        → read_byte p.shared ≡ some s
        → Run origin ins outs (record p { shared = s })
    pops :
        {ins outs : List J} {p : Pool J W} {j : J} {s : Shared J}
        → Run origin ins outs p
        → p.shared.selected ≡ true
        → take_result p.shared ≡ taken j s
        → Run origin ins (outs ++ j ∷ []) (record p { shared = s })
    misses :
        {ins outs : List J} {p : Pool J W} {s : Shared J}
        → Run origin ins outs p
        → p.shared.selected ≡ true
        → take_result p.shared ≡ nothing_there s
        → Run origin ins outs (record p { shared = s })
