-- ===== src/Kvstore/Keys.antt =====
-- Keys compared as kvstore.h compares them.
use expert_spoon.Prelude.{
  ◌≡◌, refl, ap₂, true, false, [], ◌∷◌, Str, ◌==◌, ==→eq, ==_refl, inl, inr, Bool-cases,
}
use expert_spoon.Kvstore.{same_key}

pub same_key_refl : (k : Str) → same_key k k ≡ true
unfolding same_key
same_key_refl [] = refl
same_key_refl (x ∷ k) = rw ==_refl (same_key_refl k)

pub same_key_eq : (k j : Str) → same_key k j ≡ true → k ≡ j
unfolding same_key
same_key_eq [] [] h = refl
same_key_eq [] (y ∷ ys) h = cc
same_key_eq (x ∷ xs) [] h = cc
same_key_eq (x ∷ xs) (y ∷ ys) h = elim (Bool-cases (x == y)) [
  | inl e ↦ ap₂ (λ a b. a ∷ b) (==→eq x y e) (same_key_eq xs ys (rw e at h))
  | inr e ↦ absurd (false_true (rw e at h))
]
  where
    false_true : false ≡ true → ⊥
    false_true p = cc
