-- ===== src/Pool/Conserve.antt =====
-- No job of a WorkerPool is lost or done twice (server-5204/util/thread.h), whatever the order of steps.
use expert_spoon.Prelude.{
  ℕ, ◌+◌, ◌≡◌, refl, sym, ap, subst, Option, none, some, List, [], ◌∷◌, ◌++◌, arith, inl, inr,
  Bool-cases,
}
use expert_spoon.Pool.Reader.{read_byte-Reading, take_result-Taking, take_result-Missing}
use expert_spoon.Pool.Counts.{total, total-append, total-start, shared-start}
use expert_spoon.Pool.{
  Stage, taking, working, pushing, writing, releasing, Worker, Shared, Pool, push, at_stage,
  take_job, new, advance_stage, advance, Run, begins, starts, pushes, advances, reads, pops, misses,
}

-- What a worker has in hand counts as the result that it will be.
module _ {ℓ} {J : Type ℓ} (f : J → ℕ) (g : J → J) where
  abbrev pub in_hand : Stage J → ℕ
  in_hand taking = 0
  in_hand (working j) = f (g j)
  in_hand (pushing j) = f j
  in_hand writing = 0
  in_hand releasing = 0

  abbrev pub to_do : List J → ℕ
  to_do = total (λ j. f (g j))

  abbrev pub carried : {W : Type ℓ} → Worker J W → ℕ
  carried w = in_hand w.stage

  -- The jobs pushed are those that wait, those in the workers' hands, and the results, popped or not.
  pub record Conserved {W : Type ℓ} (ins outs : List J) (p : Pool J W) : Type 0 where
    pub balance :
        to_do ins
        ≡ to_do p.shared.jobs + total carried p.workers + total f p.shared.results + total f outs

  abbrev CarriedOf : {W : Type ℓ} → Worker J W → Shared J → Option (Worker J W × Shared J) → Type 0
  CarriedOf w s none = Unit
  CarriedOf w s (some (w', s')) =
      to_do s.jobs + carried w + total f s.results ≡ to_do s'.jobs + carried w' + total f s'.results

module _ {ℓ} {J W : Type ℓ} (proc : W → J → W × J) (f : J → ℕ) (g : J → J)
    (does : (v : W) (j : J) → (proc v j).1 ≡ g j) where
  advance-CarriedOf :
      (v : W) (stage : Stage J) (s : Shared J)
      → CarriedOf f g (at_stage v stage) s (advance_stage proc v stage s)
  unfolding advance_stage at_stage take_job
  advance-CarriedOf v taking s = from_jobs s.jobs refl
    where
      from_jobs :
          (js : List J) → s.jobs ≡ js → CarriedOf f g (at_stage v taking) s (take_job v js s)
      from_jobs [] e = tt
      from_jobs (j ∷ js) e = omega (arith, ap (to_do f g) e)
  advance-CarriedOf v (working j) s = omega (arith, ap f (does v j))
  advance-CarriedOf v (pushing j) s = elim (Bool-cases s.held) [
    | inl e ↦ rw e tt
    | inr e ↦ rw e (omega (arith, total-append f s.results (j ∷ [])))
  ]
  advance-CarriedOf v writing s = refl
  advance-CarriedOf v releasing s = refl

  advances-Conserved :
      {ins outs : List J} (p : Pool J W) (xs : List (Worker J W)) (w w' : Worker J W)
      (ys : List (Worker J W)) (s : Shared J)
      → Conserved f g ins outs p
      → p.workers ≡ xs ++ w ∷ ys
      → advance proc w p.shared ≡ some (w', s)
      → Conserved f g ins outs (record p { workers = xs ++ w' ∷ ys; shared = s })
  unfolding at_stage
  advances-Conserved p xs w w' ys s c place e =
      let step : CarriedOf f g w p.shared (some (w', s)) =
        subst (CarriedOf f g w p.shared) e (advance-CarriedOf w.self w.stage p.shared) in
      record {
        balance = omega (
          arith,
          step,
          c.balance,
          ap (total (carried f g)) place,
          total-append (carried f g) xs (w ∷ ys),
          total-append (carried f g) xs (w' ∷ ys),
        );
      }

  change_shared :
      {ins outs : List J} (p : Pool J W) (s x : Shared J)
      → s ≡ x
      → Conserved f g ins outs (record p { shared = x })
      → Conserved f g ins outs (record p { shared = s })
  change_shared {ins} {outs} p s x e =
      subst (λ y. Conserved f g ins outs (record p { shared = y })) (sym e)

  -- It holds after any steps from a new pool on.
  pub Run-Conserved :
      {ins outs : List J} {p : Pool J W} → Run proc new ins outs p → Conserved f g ins outs p
  unfolding new push at_stage
  Run-Conserved begins = record { balance = refl }
  Run-Conserved (starts {p = p} vs run) =
      let c = Run-Conserved run in
      record {
        balance = omega (
          arith,
          c.balance,
          total-start (carried f g) (λ v. refl) vs p,
          ap (λ (s : Shared J). to_do f g s.jobs + total f s.results) (shared-start vs p),
        );
      }
  Run-Conserved (pushes {ins = ins} {p = p} j run) =
      let c = Run-Conserved run in
      record {
        balance = omega (
          arith,
          c.balance,
          total-append (λ x. f (g x)) ins (j ∷ []),
          total-append (λ x. f (g x)) p.shared.jobs (j ∷ []),
        );
      }
  Run-Conserved (advances xs w w' ys s run place e) =
      advances-Conserved _ xs w w' ys s (Run-Conserved run) place e
  Run-Conserved (reads {p = p} run e) =
      change_shared p _ _ (read_byte-Reading _ _ e).change
        (record { balance = (Run-Conserved run).balance })
  Run-Conserved (pops {outs = outs} {p = p} {j = j} run h e) =
      let t = take_result-Taking _ _ _ e in
      let c = Run-Conserved run in
      change_shared p _ _ t.change (record {
        balance = omega (arith, c.balance, total-append f outs (j ∷ []), ap (total f) t.first);
      })
  Run-Conserved (misses {p = p} run h e) =
      change_shared p _ _ (take_result-Missing _ _ e).change
        (record { balance = (Run-Conserved run).balance })
