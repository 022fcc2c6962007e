-- ===== src/Pool/Counts.antt =====
-- The pipe of the results (server-5204/util/thread.h): its bytes count the items, so the reader that has
-- read a byte finds one.
use expert_spoon.Prelude.{
  ℕ, ◌+◌, ◌≤◌, ◌≡◌, ◌≢◌, refl, sym, ap, ◌∙◌, subst, Bool, true, false, Option, none, some, List, [],
  ◌∷◌, ◌++◌, length, length-append, arith, inl, inr, Bool-cases,
}
use expert_spoon.Pool.Reader.{
  Reading, Taking, Missing, read_byte-Reading, take_result-Taking, take_result-Missing,
}
use expert_spoon.Pool.{
  Stage, taking, working, pushing, writing, releasing, Worker, Shared, Pool, nothing_there, push,
  take_result, at_stage, take_job, create, start, new, advance_stage, advance, Run, begins, starts,
  pushes, advances, reads, pops, misses,
}

module _ {ℓ} {A : Type ℓ} (f : A → ℕ) where
  abbrev pub total : List A → ℕ
  total [] = 0
  total (x ∷ xs) = f x + total xs

  pub total-append : (xs ys : List A) → total (xs ++ ys) ≡ total xs + total ys
  total-append [] ys = omega arith
  total-append (x ∷ xs) ys = omega (arith, total-append xs ys)

abbrev pub flag : Bool → ℕ
flag true = 1
flag false = 0

module _ {ℓ} {J : Type ℓ} where
  -- A worker between the item and its byte; and one that holds the mutex.
  abbrev pub owes : Stage J → ℕ
  owes taking = 0
  owes (working j) = 0
  owes (pushing j) = 0
  owes writing = 1
  owes releasing = 0

  abbrev pub holds : Stage J → ℕ
  holds taking = 0
  holds (working j) = 0
  holds (pushing j) = 0
  holds writing = 1
  holds releasing = 1

module _ {ℓ} {J W : Type ℓ} where
  abbrev pub owed : Worker J W → ℕ
  owed w = owes w.stage

  abbrev pub holding : Worker J W → ℕ
  holding w = holds w.stage

  -- Every item has its byte, in the pipe or with the reader, but for the one whose byte is not written
  -- yet; and whoever holds the mutex is the only one.
  pub record Counted (p : Pool J W) : Type 0 where
    pub bytes_count :
        p.shared.bytes + flag p.shared.selected + total owed p.workers ≡ length p.shared.results
    pub one_holder : total holding p.workers ≡ flag p.shared.held

  abbrev Balanced : Worker J W → Shared J → Option (Worker J W × Shared J) → Type 0
  Balanced w s none = Unit
  Balanced w s (some (w', s')) =
      (s'.bytes + flag s'.selected + owed w' + length s.results
        ≡ s.bytes + flag s.selected + owed w + length s'.results)
      × (holding w' + flag s.held ≡ holding w + flag s'.held)

  -- New workers hold nothing.
  create-none :
      (f : Worker J W → ℕ)
      → ((v : W) → f (at_stage v taking) ≡ 0)
      → (vs : List (Option W)) → total f (create vs) ≡ 0
  unfolding create
  create-none f h [] = refl
  create-none f h (none ∷ vs) = create-none f h vs
  create-none f h (some v ∷ vs) = omega (arith, h v, create-none f h vs)

  pub total-start :
      (f : Worker J W → ℕ)
      → ((v : W) → f (at_stage v taking) ≡ 0)
      → (vs : List (Option W)) (p : Pool J W) → total f (start vs p).workers ≡ total f p.workers
  unfolding start
  total-start f h vs p = elim (Bool-cases p.started) [
    | inl e ↦ rw e refl
    | inr e ↦ rw e (omega (arith, total-append f p.workers (create vs), create-none f h vs))
  ]

  pub shared-start : (vs : List (Option W)) (p : Pool J W) → (start vs p).shared ≡ p.shared
  unfolding start
  shared-start vs p = elim (Bool-cases p.started) [ inl e ↦ rw e refl | inr e ↦ rw e refl ]

module _ {ℓ} {J W : Type ℓ} (proc : W → J → W × J) where
  advance-Balanced :
      (v : W) (stage : Stage J) (s : Shared J)
      → holds stage ≤ flag s.held
      → Balanced (at_stage v stage) s (advance_stage proc v stage s)
  unfolding advance_stage at_stage take_job
  advance-Balanced v taking s h = from_jobs s.jobs
    where
      from_jobs : (js : List J) → Balanced (at_stage v taking) s (take_job v js s)
      from_jobs [] = tt
      from_jobs (j ∷ js) = (refl, refl)
  advance-Balanced v (working j) s h = (refl, refl)
  advance-Balanced v (pushing j) s h = elim (Bool-cases s.held) [
    | inl e ↦ rw e tt
    | inr e ↦ rw e (omega (arith, length-append s.results (j ∷ [])), omega arith)
  ]
  advance-Balanced v writing s h = (omega arith, omega arith)
  advance-Balanced v releasing s h = (omega arith, grind arith)

  advances-Counted :
      (p : Pool J W) (xs : List (Worker J W)) (w w' : Worker J W) (ys : List (Worker J W))
      (s : Shared J)
      → Counted p
      → p.workers ≡ xs ++ w ∷ ys
      → advance proc w p.shared ≡ some (w', s)
      → Counted (record p { workers = xs ++ w' ∷ ys; shared = s })
  unfolding at_stage
  advances-Counted p xs w w' ys s c place e =
      let sum : (f : Worker J W → ℕ) → total f p.workers ≡ total f xs + (f w + total f ys) =
        λ f. ap (total f) place ∙ total-append f xs (w ∷ ys) in
      let sum' : (f : Worker J W → ℕ) → total f (xs ++ w' ∷ ys) ≡ total f xs + (f w' + total f ys) =
        λ f. total-append f xs (w' ∷ ys) in
      let step : Balanced w p.shared (some (w', s)) =
        subst (Balanced w p.shared) e
          (advance-Balanced w.self w.stage p.shared (omega (arith, sum holding, c.one_holder))) in
      record {
        bytes_count = omega (arith, step.0, sum owed, sum' owed, c.bytes_count);
        one_holder = omega (arith, step.1, sum holding, sum' holding, c.one_holder);
      }

  change_shared :
      (p : Pool J W) (s x : Shared J)
      → s ≡ x
      → Counted (record p { shared = x })
      → Counted (record p { shared = s })
  change_shared p s x e = subst (λ y. Counted (record p { shared = y })) (sym e)

  reads-Counted :
      (p : Pool J W) (s : Shared J)
      → Counted p
      → Reading p.shared s
      → Counted (record p { shared = s })
  reads-Counted p s c r = change_shared p s _ r.change (record {
    bytes_count = omega (arith, c.bytes_count, r.one_byte, ap flag r.not_before);
    one_holder = c.one_holder;
  })

  pops-Counted :
      (p : Pool J W) (j : J) (s : Shared J)
      → Counted p
      → p.shared.selected ≡ true
      → Taking j p.shared s
      → Counted (record p { shared = s })
  pops-Counted p j s c h t = change_shared p s _ t.change (record {
    bytes_count = omega (arith, c.bytes_count, ap length t.first, ap flag h);
    one_holder = c.one_holder;
  })

  -- With a byte read and the mutex free, there is an item.
  not-Missing :
      (p : Pool J W) (s : Shared J) → Counted p → p.shared.selected ≡ true → ¬ Missing p.shared s
  not-Missing p s c h m = omega (arith, c.bytes_count, ap length m.nothing_left, ap flag h)

  starts-Counted : (vs : List (Option W)) (p : Pool J W) → Counted p → Counted (start vs p)
  unfolding at_stage
  starts-Counted vs p c = record {
    bytes_count =
        ap (λ (s : Shared J). s.bytes + flag s.selected + total owed (start vs p).workers)
          (shared-start vs p)
        ∙ ap (λ n. p.shared.bytes + flag p.shared.selected + n) (total-start owed (λ v. refl) vs p)
        ∙ c.bytes_count
        ∙ ap (λ (s : Shared J). length s.results) (sym (shared-start vs p));
    one_holder =
        total-start holding (λ v. refl) vs p
        ∙ c.one_holder
        ∙ ap (λ (s : Shared J). flag s.held) (sym (shared-start vs p));
  }

  pub Run-Counted :
      {p : Pool J W} {ins outs : List J} {p' : Pool J W}
      → Run proc p ins outs p'
      → Counted p
      → Counted p'
  unfolding push
  Run-Counted begins c = c
  Run-Counted (starts vs run) c = starts-Counted vs _ (Run-Counted run c)
  Run-Counted (pushes j run) c =
      let d = Run-Counted run c in record { bytes_count = d.bytes_count; one_holder = d.one_holder }
  Run-Counted (advances xs w w' ys s run place e) c =
      advances-Counted _ xs w w' ys s (Run-Counted run c) place e
  Run-Counted (reads run e) c = reads-Counted _ _ (Run-Counted run c) (read_byte-Reading _ _ e)
  Run-Counted (pops run h e) c =
      pops-Counted _ _ _ (Run-Counted run c) h (take_result-Taking _ _ _ e)
  Run-Counted (misses run h e) c =
      absurd (not-Missing _ _ (Run-Counted run c) h (take_result-Missing _ _ e))

  pub new-Counted : Counted (new {J = J} {W = W})
  unfolding new
  new-Counted = record { bytes_count = refl; one_holder = refl }

  -- In a WorkerPool, after any steps of its clients, workers and reader from a new one on, a reader
  -- that has read a byte never finds `results` without an item: the branch of `pop` that reports an
  -- error is not reached.
  pub take_result-finds :
      {ins outs : List J} {p : Pool J W}
      → Run proc new ins outs p
      → p.shared.selected ≡ true
      → (s : Shared J) → take_result p.shared ≢ nothing_there s
  take_result-finds run h s e =
      not-Missing _ s (Run-Counted run new-Counted) h (take_result-Missing _ s e)
