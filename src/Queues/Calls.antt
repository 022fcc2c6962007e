-- ===== src/Queues/Calls.antt =====
-- What `pop` of Queue comes to (server-5204/util/thread.h), on every answer of pthreads.
use expert_spoon.Prelude.{◌≡◌, refl, Bool, true, false, none, some, List, [], ◌∷◌}
use expert_spoon.Queues.{
  Queue, Wait, woken, wait_failed, Popped, popped, failed, waits, pop, pop_items, wait_loop,
}

module _ {ℓ} {A : Type ℓ} where
  -- The items as they are after the wake-ups that were met with no item, and the waits that follow: from
  -- what the call started with, to where the loop stops waiting.
  pub data Seen : List A → List (Wait A) → List A → List (Wait A) → Type ℓ where
    no_wait : {items : List A} {ws : List (Wait A)} → Seen items ws items ws
    after_wait :
        {next last : List A} {ws rest : List (Wait A)}
        → Seen next ws last rest
        → Seen [] (woken next ∷ ws) last rest

  -- How a pop ends, by what the lock, the waits and the unlock answer.
  pub data Pops (locked unlocked : Bool) (ws : List (Wait A)) (q : Queue A)
      : Popped A → Type ℓ where
    not_locked : locked ≡ false → Pops locked unlocked ws q (failed none q)
    took :
        (x : A) (xs : List A) (rest : List (Wait A))
        → locked ≡ true
        → Seen q.items ws (x ∷ xs) rest
        → unlocked ≡ true
        → Pops locked unlocked ws q (popped x (record { items = xs; held = false }))
    took_and_failed :
        (x : A) (xs : List A) (rest : List (Wait A))
        → locked ≡ true
        → Seen q.items ws (x ∷ xs) rest
        → unlocked ≡ false
        → Pops locked unlocked ws q (failed (some x) (record { items = xs; held = true }))
    wait_broke :
        (rest : List (Wait A))
        → locked ≡ true
        → Seen q.items ws [] (wait_failed ∷ rest)
        → Pops locked unlocked ws q (failed none (record { items = []; held = true }))
    still_waits : locked ≡ true → Seen q.items ws [] [] → Pops locked unlocked ws q waits

  pop_items-Pops :
      (unlocked : Bool) (ws rest : List (Wait A)) (q : Queue A) (x : A) (xs : List A)
      → Seen q.items ws (x ∷ xs) rest
      → Pops true unlocked ws q (pop_items unlocked x xs)
  unfolding pop_items
  pop_items-Pops true ws rest q x xs s = took x xs rest refl s refl
  pop_items-Pops false ws rest q x xs s = took_and_failed x xs rest refl s refl

  wait_loop-Pops :
      (unlocked : Bool) (ws all : List (Wait A)) (q : Queue A) (items : List A)
      → ((last : List A) (rest : List (Wait A))
          → Seen items ws last rest
          → Seen q.items all last rest)
      → Pops true unlocked all q (wait_loop unlocked ws items)
  unfolding wait_loop
  wait_loop-Pops unlocked ws all q (x ∷ xs) up =
      pop_items-Pops unlocked all ws q x xs (up _ _ no_wait)
  wait_loop-Pops unlocked [] all q [] up = still_waits refl (up _ _ no_wait)
  wait_loop-Pops unlocked (woken items ∷ ws) all q [] up =
      wait_loop-Pops unlocked ws all q items (λ last rest s. up last rest (after_wait s))
  wait_loop-Pops unlocked (wait_failed ∷ ws) all q [] up = wait_broke ws refl (up _ _ no_wait)

  -- `Queue::pop`, on every answer of the lock, the waits and the unlock: it looks at the items at
  -- its start and, while there is none, behind each wake-up in turn. Where the lock fails it returns
  -- -1 with the queue as it was. With the lock it takes the first item of the first items that it
  -- finds, and returns 1 with the mutex released, or -1 with the mutex still locked where the unlock
  -- fails; where it has found none and a wait fails it returns -1 with the mutex still locked; where
  -- it finds none behind the last wake-up it waits on.
  pub pop-Pops :
      (locked unlocked : Bool) (ws : List (Wait A)) (q : Queue A)
      → Pops locked unlocked ws q (pop locked unlocked ws q)
  unfolding pop
  pop-Pops false unlocked ws q = not_locked refl
  pop-Pops true unlocked ws q = wait_loop-Pops unlocked ws ws q q.items (λ last rest s. s)
