-- ===== src/Queues.antt =====
-- Queue and SelectableQueue (server-5204/util/thread.h), one call at a time. What the calls of pthreads
-- and of the pipe answer is an argument; a Boolean says whether a call returns 0. Pool has the calls of
-- several threads side by side.
pub mod Calls
use expert_spoon.Prelude.{
  ℕ, ◌-◌, zero, suc, Bool, true, false, Option, none, some, List, [], ◌∷◌, ◌++◌, if◌then◌else◌,
  length,
}

-- The items, and whether a call that has returned still holds the mutex.
pub record Queue {ℓ} (A : Type ℓ) : Type ℓ where
  pub items : List A
  pub held : Bool

-- `pthread_cond_wait`: it returns with the items as the other threads have made them, or fails.
pub data Wait {ℓ} (A : Type ℓ) : Type ℓ where
  woken : List A → Wait A
  wait_failed : Wait A

-- What a `pop` comes to: 1, with what it stored in `*data`; -1, with what it stored there, if anything;
-- or it waits for ever.
pub data Popped {ℓ} (A : Type ℓ) : Type ℓ where
  popped : A → Queue A → Popped A
  failed : Option A → Queue A → Popped A
  waits : Popped A

module _ {ℓ} {A : Type ℓ} where
  unfoldable pub new : Queue A
  new = record { items = []; held = false }

  -- `return -1` in a function with result `bool` is true.
  unfoldable pub empty : Bool → Queue A → Bool
  empty false q = true
  empty true q = elim q.items [ [] ↦ true | x ∷ xs ↦ false ]

  -- -1 is `none`.
  unfoldable pub size : Bool → Queue A → Option ℕ
  size false q = none
  size true q = some (length q.items)

  unfoldable pub push : Bool → A → Queue A → Bool × Queue A
  push false item q = (false, q)
  push true item q = (true, record q { items = q.items ++ item ∷ [] })

  -- *data = items.front(); items.pop(); and what stands behind it
  unfoldable pub pop_items : Bool → A → List A → Popped A
  pop_items unlocked x xs =
      if unlocked
      then popped x (record { items = xs; held = false })
      else failed (some x) (record { items = xs; held = true })

  -- while(items.empty()){ pthread_cond_wait(...) }
  unfoldable pub wait_loop : Bool → List (Wait A) → List A → Popped A
  wait_loop unlocked ws (x ∷ xs) = pop_items unlocked x xs
  wait_loop unlocked [] [] = waits
  wait_loop unlocked (woken items ∷ ws) [] = wait_loop unlocked ws items
  wait_loop unlocked (wait_failed ∷ ws) [] = failed none (record { items = []; held = true })

  unfoldable pub pop : Bool → Bool → List (Wait A) → Queue A → Popped A
  pop false unlocked ws q = failed none q
  pop true unlocked ws q = wait_loop unlocked ws q.items

-- `read` of one byte of the pipe: it was interrupted, failed otherwise, found the end, or gave the byte.
pub data PipeRead : Type 0 where
  interrupted no_read at_end got_byte : PipeRead

-- A SelectableQueue's items and the number of bytes in its pipe.
pub record SelectableQueue {ℓ} (A : Type ℓ) : Type ℓ where
  pub items : List A
  pub bytes : ℕ

pub data Selected {ℓ} (A : Type ℓ) : Type ℓ where
  selected : A → SelectableQueue A → Selected A
  not_selected : SelectableQueue A → Selected A
  no_answer : Selected A

module _ {ℓ} {A : Type ℓ} where
  -- `none` where `pipe` fails and the process exits.
  unfoldable pub new_selectable : Bool → Option (SelectableQueue A)
  new_selectable piped = if piped then some (record { items = []; bytes = 0 }) else none

  -- `size` does not look at what the lock answers.
  unfoldable pub size_selectable : SelectableQueue A → ℕ
  size_selectable q = length q.items

  -- `none` where the write fails and the process exits.
  unfoldable pub push_selectable :
      Bool → Bool → A → SelectableQueue A → Option (Bool × SelectableQueue A)
  push_selectable false wrote item q = some (false, q)
  push_selectable true wrote item q =
      if wrote
      then some (true, record { items = q.items ++ item ∷ []; bytes = suc q.bytes })
      else none

  -- behind a read that gave a byte
  unfoldable pub take_selected : Bool → SelectableQueue A → Selected A
  take_selected false q = not_selected q
  take_selected true q = elim q.items [
    | [] ↦ not_selected q
    | x ∷ xs ↦ selected x (record q { items = xs })
  ]

  -- while(1){ n = ::read(fds[0], buf, 1); ... }
  unfoldable pub pop_selectable : Bool → List PipeRead → SelectableQueue A → Selected A
  pop_selectable locked [] q = no_answer
  pop_selectable locked (interrupted ∷ rs) q = pop_selectable locked rs q
  pop_selectable locked (no_read ∷ rs) q = not_selected q
  pop_selectable locked (at_end ∷ rs) q = not_selected q
  pop_selectable locked (got_byte ∷ rs) q = take_selected locked (record q { bytes = q.bytes - 1 })
