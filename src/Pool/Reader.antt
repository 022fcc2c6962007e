-- ===== src/Pool/Reader.antt =====
-- What the reader's two steps change (server-5204/util/thread.h, SelectableQueue::pop).
use expert_spoon.Prelude.{
  ℕ, zero, suc, ◌≡◌, refl, subst, Bool, true, false, Option, none, some, List, [], ◌∷◌,
  if◌then◌else◌,
}
use expert_spoon.Pool.{
  Shared, Taken, taken, nothing_there, locked_out, read_byte, take_item, take_result,
}

module _ {ℓ} {J : Type ℓ} where
  -- The reader took a byte out of the pipe.
  pub record Reading (s s' : Shared J) : Type ℓ where
    pub not_before : s.selected ≡ false
    pub one_byte : s.bytes ≡ suc s'.bytes
    pub change : s' ≡ record s { bytes = s'.bytes; selected = true }

  -- It took the first item.
  pub record Taking (j : J) (s s' : Shared J) : Type ℓ where
    pub first : s.results ≡ j ∷ s'.results
    pub change : s' ≡ record s { results = s'.results; selected = false }

  -- There was none.
  pub record Missing (s s' : Shared J) : Type ℓ where
    pub nothing_left : s.results ≡ []
    pub free : s.held ≡ false
    pub change : s' ≡ record s { selected = false }

  abbrev ReadOf : Shared J → Option (Shared J) → Type ℓ
  ReadOf s none = s ≡ s
  ReadOf s (some s') = Reading s s'

  abbrev TakenOf : Shared J → Taken J → Type ℓ
  TakenOf s (taken j s') = Taking j s s'
  TakenOf s (nothing_there s') = Missing s s'
  TakenOf s locked_out = s ≡ s

  read_byte-ReadOf : (s : Shared J) → ReadOf s (read_byte s)
  unfolding read_byte
  read_byte-ReadOf s = cases s.selected s.bytes refl refl
    where
      cases :
          (b : Bool) (n : ℕ)
          → s.selected ≡ b
          → s.bytes ≡ n
          → ReadOf s (elim b [
            | true ↦ none
            | false ↦ elim n [
              | zero ↦ none
              | suc n ↦ some (record s { bytes = n; selected = true })
            ]
          ])
      cases true n e h = refl
      cases false zero e h = refl
      cases false (suc n) e h = record { not_before = e; one_byte = h; change = refl }

  pub read_byte-Reading : (s s' : Shared J) → read_byte s ≡ some s' → Reading s s'
  read_byte-Reading s s' e = subst (ReadOf s) e (read_byte-ReadOf s)

  take_result-TakenOf : (s : Shared J) → TakenOf s (take_result s)
  unfolding take_result take_item
  take_result-TakenOf s = cases s.held s.results refl refl
    where
      cases :
          (b : Bool) (js : List J)
          → s.held ≡ b
          → s.results ≡ js
          → TakenOf s (if b then locked_out else take_item js s)
      cases true js e h = refl
      cases false [] e h = record { nothing_left = h; free = e; change = refl }
      cases false (j ∷ js) e h = record { first = h; change = refl }

  pub take_result-Taking : (j : J) (s s' : Shared J) → take_result s ≡ taken j s' → Taking j s s'
  take_result-Taking j s s' e = subst (TakenOf s) e (take_result-TakenOf s)

  pub take_result-Missing : (s s' : Shared J) → take_result s ≡ nothing_there s' → Missing s s'
  take_result-Missing s s' e = subst (TakenOf s) e (take_result-TakenOf s)
