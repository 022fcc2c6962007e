-- ===== src/Bytes/Order.antt =====
-- Bytes::compare (server-5204/util/bytes.h) is the order of std::string.
use expert_spoon.Prelude.{
  ℕ, zero, suc, ◌≡◌, refl, sym, ap, ◌∙◌, Bool, true, false, not, [], ◌∷◌, Str, if◌then◌else◌, ◌==◌,
  ltb, length, min, arith, inl, inr, Bool-cases,
}
use expert_spoon.SortedSet.{str_less, same_str}
use expert_spoon.SortedSet.Order.{str_less_trans}
use expert_spoon.Bytes.{
  Sign, less, equal, greater, memcmp, compare_sizes, compare, is_less, is_greater, eq, ne, gt, ge,
  lt, le,
}

-- The sign of std::string's order.
abbrev pub sign_of : Str → Str → Sign
sign_of a b = if str_less a b then less else if str_less b a then greater else equal

then_sizes : Sign → ℕ → ℕ → Sign
then_sizes less m n = less
then_sizes equal m n = compare_sizes m n
then_sizes greater m n = greater

memcmp_nil : (n : ℕ) (b : Str) → memcmp n [] b ≡ equal
unfolding memcmp
memcmp_nil zero b = refl
memcmp_nil (suc n) b = refl

memcmp_nil_right : (n : ℕ) (a : Str) → memcmp n a [] ≡ equal
unfolding memcmp
memcmp_nil_right zero a = refl
memcmp_nil_right (suc n) [] = refl
memcmp_nil_right (suc n) (x ∷ a) = refl

sizes_step : (m n : ℕ) → compare_sizes (suc m) (suc n) ≡ compare_sizes m n
unfolding compare_sizes
sizes_step m n = ground arith

sizes_less : (n : ℕ) → compare_sizes 0 (suc n) ≡ less
unfolding compare_sizes
sizes_less n = ground arith

sizes_greater : (n : ℕ) → compare_sizes (suc n) 0 ≡ greater
unfolding compare_sizes
sizes_greater n = ground arith

heads :
    (x y : ℕ) (a b : Str)
    → sign_of (x ∷ a) (y ∷ b) ≡ (if ltb x y then less else if ltb y x then greater else sign_of a b)
unfolding str_less
heads x y a b = elim (Bool-cases (ltb x y)) [
  | inl e ↦ rw e refl
  | inr e ↦ elim (Bool-cases (ltb y x)) [
    | inl k ↦ rw (e, k, not_equal k) refl
    | inr k ↦ rw (e, k, same x y e k, same y x k e) refl
  ]
]
  where
    not_equal : ltb y x ≡ true → (x == y) ≡ false
    not_equal k = ground arith

    same : (m n : ℕ) → ltb m n ≡ false → ltb n m ≡ false → (m == n) ≡ true
    same m n e k = ground arith

then_sizes-if :
    (p q : Bool) (s : Sign) (m n : ℕ)
    → then_sizes (if p then less else if q then greater else s) m n
      ≡ (if p then less else if q then greater else then_sizes s m n)
unfolding then_sizes
then_sizes-if true q s m n = refl
then_sizes-if false true s m n = refl
then_sizes-if false false s m n = refl

then_sizes_step : (s : Sign) (m n : ℕ) → then_sizes s (suc m) (suc n) ≡ then_sizes s m n
unfolding then_sizes
then_sizes_step less m n = refl
then_sizes_step equal m n = sizes_step m n
then_sizes_step greater m n = refl

compare_from :
    (n : ℕ) (a b : Str)
    → n ≡ min (length a) (length b)
    → then_sizes (memcmp n a b) (length a) (length b) ≡ sign_of a b
unfolding memcmp then_sizes str_less
compare_from n [] [] h = ap (λ s. then_sizes s 0 0) (memcmp_nil n []) ∙ sizes_equal
  where
    sizes_equal : compare_sizes 0 0 ≡ equal
    sizes_equal = unfold compare_sizes in refl
compare_from n [] (y ∷ b) h =
    ap (λ s. then_sizes s 0 (suc (length b))) (memcmp_nil n (y ∷ b)) ∙ sizes_less (length b)
compare_from n (x ∷ a) [] h =
    ap (λ s. then_sizes s (suc (length a)) 0) (memcmp_nil_right n (x ∷ a))
    ∙ sizes_greater (length a)
compare_from zero (x ∷ a) (y ∷ b) h = absurd (omega (arith, h))
compare_from (suc n) (x ∷ a) (y ∷ b) h =
    then_sizes-if (ltb x y) (ltb y x) (memcmp n a b) (suc (length a)) (suc (length b))
    ∙ ap (λ s. if ltb x y then less else if ltb y x then greater else s)
        (then_sizes_step (memcmp n a b) (length a) (length b)
          ∙ compare_from n a b (omega (arith, h)))
    ∙ sym (heads x y a b)

compare-sign_of : (a b : Str) → compare a b ≡ sign_of a b
unfolding compare then_sizes
compare-sign_of a b =
    parts (memcmp (min (length a) (length b)) a b) refl
    ∙ compare_from (min (length a) (length b)) a b refl
  where
    parts :
        (s : Sign)
        → memcmp (min (length a) (length b)) a b ≡ s
        → compare a b ≡ then_sizes (memcmp (min (length a) (length b)) a b) (length a) (length b)
    parts less e = rw (e, compare) refl
    parts equal e = rw (e, compare) refl
    parts greater e = rw (e, compare) refl

eq-same_str : (a b : Str) → eq a b ≡ same_str a b
unfolding eq same_str memcmp
eq-same_str [] [] = refl
eq-same_str [] (y ∷ b) = ground arith
eq-same_str (x ∷ a) [] = ground arith
eq-same_str (x ∷ a) (y ∷ b) = ground (arith, eq-same_str a b)

irreflexive : (a : Str) → str_less a a ≡ false
unfolding str_less
irreflexive [] = refl
irreflexive (x ∷ a) = ground (arith, irreflexive a)

-- The six comparisons of Bytes are those of the strings' order: `<` is the order byte by byte, a
-- proper prefix before what it begins, `==` is equality, and the others are made of these two.
pub operators_lem :
    (a b : Str)
    → (lt a b ≡ str_less a b)
      × (gt a b ≡ str_less b a)
      × (le a b ≡ not (str_less b a))
      × (ge a b ≡ not (str_less a b))
      × (eq a b ≡ same_str a b)
      × (ne a b ≡ not (same_str a b))
unfolding lt gt le ge ne
operators_lem a b =
    let c = compare-sign_of a b in
    (
      ap is_less c ∙ lefts,
      ap is_greater c ∙ rights,
      ap (λ s. not (is_greater s)) c ∙ ap not rights,
      ap (λ s. not (is_less s)) c ∙ ap not lefts,
      eq-same_str a b,
      ap not (eq-same_str a b),
    )
  where
    lefts : is_less (sign_of a b) ≡ str_less a b
    lefts = by_cases (str_less a b) (str_less b a)
      where
        by_cases : (p q : Bool) → is_less (if p then less else if q then greater else equal) ≡ p
        by_cases true q = refl
        by_cases false true = refl
        by_cases false false = refl

    rights : is_greater (sign_of a b) ≡ str_less b a
    rights = by_cases (str_less a b) (str_less b a) never_both
      where
        never_both : str_less a b ≡ true → str_less b a ≡ false
        never_both h = elim (Bool-cases (str_less b a)) [
          | inr k ↦ k
          | inl k ↦ absurd (clash (sym (str_less_trans a b a h k) ∙ irreflexive a))
        ]
          where
            clash : true ≡ false → ⊥
            clash e = cc

        by_cases :
            (p q : Bool)
            → (p ≡ true → q ≡ false)
            → is_greater (if p then less else if q then greater else equal) ≡ q
        by_cases true q h = sym (h refl)
        by_cases false true h = refl
        by_cases false false h = refl
