-- ===== src/Prelude/Entries.antt =====
-- A list written at one index and read at another, with the test that the source makes on indices.
use Prim.Native.Nat.{ℕ, zero, suc, ◌<◌}
use mathlib.Core.Path.{◌≡◌, refl, ap, ◌∙◌}
use mathlib.Core.Bool.{false}
use mathlib.Core.List.{List, [], ◌∷◌}
use native.Mathlib.Omega.{arith}
use expert_spoon.Prelude.Tests.{◌==◌, ==_refl, if◌then◌else◌}
use expert_spoon.Prelude.Lists.{length, get_or, set}

zero_eq_suc : (j : ℕ) → (0 == suc j) ≡ false
zero_eq_suc j = ground arith

suc_eq_zero : (j : ℕ) → (suc j == 0) ≡ false
suc_eq_zero j = ground arith

suc_eq_suc : (i j : ℕ) → (i == j) ≡ (suc i == suc j)
suc_eq_suc i j = ground arith

pub get_or-set {ℓ} :
    {A : Type ℓ} (es : List A) (i j : ℕ) (v d : A)
    → i < length es
    → get_or (set es i v) j d ≡ (if i == j then v else get_or es j d)
get_or-set [] i j v d h = absurd (omega arith)
get_or-set (e ∷ es) zero zero v d h = refl
get_or-set (e ∷ es) zero (suc j) v d h = rw zero_eq_suc refl
get_or-set (e ∷ es) (suc i) zero v d h = rw suc_eq_zero refl
get_or-set (e ∷ es) (suc i) (suc j) v d h =
    get_or-set es i j v d (omega arith) ∙ ap (λ b. if b then v else get_or es j d) (suc_eq_suc i j)

pub get_or-set_self {ℓ} :
    {A : Type ℓ} (es : List A) (i : ℕ) (v d : A) → i < length es → get_or (set es i v) i d ≡ v
get_or-set_self es i v d h =
    get_or-set es i i v d h ∙ ap (λ b. if b then v else get_or es i d) (==_refl i)
