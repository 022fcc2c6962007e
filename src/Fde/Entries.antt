-- ===== src/Fde/Entries.antt =====
-- The table of `Fdevents` (fde.cpp): `get_fde` adds entries without flags and changes no other.
use expert_spoon.Prelude.{
  ℕ, zero, suc, ◌+◌, ◌-◌, ◌<◌, ◌≡◌, refl, sym, ap, ◌∙◌, List, [], ◌∷◌, ◌++◌, arith, length, get_or,
  length-append,
}
use expert_spoon.Fde.{Fdevent, fresh, extend, with_fde, fde_at}

get_or-append_fresh :
    (es : List Fdevent) (n j : ℕ)
    → get_or (es ++ fresh (n + length es) ∷ []) j (fresh (n + j)) ≡ get_or es j (fresh (n + j))
get_or-append_fresh [] n zero = refl
get_or-append_fresh [] n (suc j) = refl
get_or-append_fresh (e ∷ es) n zero = refl
get_or-append_fresh (e ∷ es) n (suc j) =
    let e' : n + suc (length es) ≡ suc n + length es = omega arith in
    let d : n + suc j ≡ suc n + j = omega arith in
    ap (λ m. get_or (es ++ fresh m ∷ []) j (fresh (n + suc j))) e'
    ∙ ap (λ m. get_or (es ++ fresh (suc n + length es) ∷ []) j (fresh m)) d
    ∙ get_or-append_fresh es (suc n) j
    ∙ ap (λ m. get_or es j (fresh m)) (sym d)

fde_at-append_fresh :
    (es : List Fdevent) (j : ℕ) → fde_at j (es ++ fresh (length es) ∷ []) ≡ fde_at j es
fde_at-append_fresh es j =
    let z : (m : ℕ) → 0 + m ≡ m = λ m. omega arith in
    ap (λ m. get_or (es ++ fresh m ∷ []) j (fresh j)) (sym (z (length es)))
    ∙ ap (λ m. get_or (es ++ fresh (0 + length es) ∷ []) j (fresh m)) (sym (z j))
    ∙ get_or-append_fresh es 0 j
    ∙ ap (λ m. get_or es j (fresh m)) (z j)

fde_at-extend : (rounds : ℕ) (es : List Fdevent) (j : ℕ) → fde_at j (extend rounds es) ≡ fde_at j es
unfolding extend
fde_at-extend zero es j = refl
fde_at-extend (suc rounds) es j =
    fde_at-extend rounds (es ++ fresh (length es) ∷ []) j ∙ fde_at-append_fresh es j

length-extend : (rounds : ℕ) (es : List Fdevent) → length (extend rounds es) ≡ rounds + length es
unfolding extend
length-extend zero es = omega arith
length-extend (suc rounds) es = omega (
  arith,
  length-extend rounds (es ++ fresh (length es) ∷ []),
  length-append {0} es (fresh (length es) ∷ []),
)

-- `get_fde` adds entries without flags, and its descriptor has an entry then.
pub fde_at-with_fde : (fd : ℕ) (es : List Fdevent) (j : ℕ) → fde_at j (with_fde fd es) ≡ fde_at j es
unfolding with_fde
fde_at-with_fde fd es j = fde_at-extend (fd + 1 - length es) es j

pub length-with_fde : (fd : ℕ) (es : List Fdevent) → fd < length (with_fde fd es)
unfolding with_fde
length-with_fde fd es = omega (arith, length-extend (fd + 1 - length es) es)
