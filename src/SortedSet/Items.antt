-- ===== src/SortedSet/Items.antt =====
-- The ordered set of items (server-5204/util/sorted_set.cpp): its order, and the item of a key.
use expert_spoon.Prelude.{
  ◌≡◌, refl, sym, ap, ◌∙◌, true, false, inl, inr, Option, none, some, List, [], ◌∷◌, Str, arith,
  ==_refl, if◌then◌else◌, Bool-cases, All,
}
use expert_spoon.SortedSet.{same_str, Item, item_less, set_insert, set_erase, same_item}
use expert_spoon.SortedSet.Order.{same_str_refl, same_str_eq, same_key_of}

abbrev pub item_at : Str → List Item → Option Item
item_at k [] = none
item_at k (y ∷ ys) = if same_str y.key k then some y else item_at k ys

-- No key stands twice.
abbrev pub Distinct : List Item → Type 0
Distinct [] = Unit
Distinct (y ∷ ys) = (item_at y.key ys ≡ none) × Distinct ys

abbrev pub Before : Item → List Item → Type 0
Before x ys = All (λ y. item_less x y ≡ true) ys

abbrev pub Sorted : List Item → Type 0
Sorted [] = Unit
Sorted (y ∷ ys) = Before y ys × Sorted ys

pub not_none : {x : Item} → some x ≡ none → ⊥
not_none p = cc

pub not_false : true ≡ false → ⊥
not_false p = cc

pub same_sym : (k j : Str) → same_str k j ≡ false → same_str j k ≡ false
same_sym k j h = elim (Bool-cases (same_str j k)) [
  | inr e ↦ e
  | inl e ↦
      absurd
        (not_false (sym (same_str_refl k) ∙ ap (λ x. same_str k x) (sym (same_str_eq j k e)) ∙ h))
]

same_left : (k j i : Str) → k ≡ j → same_str k i ≡ same_str j i
same_left k j i e = ap (λ x. same_str x i) e

-- Absent from a list, absent from its tail, and not the head's key.
pub absent_parts :
    (k : Str) (y : Item) (ys : List Item)
    → item_at k (y ∷ ys) ≡ none
    → (same_str y.key k ≡ false) × (item_at k ys ≡ none)
absent_parts k y ys h = elim (Bool-cases (same_str y.key k)) [
  | inl e ↦ absurd (not_none (rw e at h))
  | inr e ↦ (e, rw e at h)
]

-- An item whose key is new is what its key finds, and other keys find what they did.
pub item_at-set_insert :
    (x : Item) (ys : List Item) (j : Str)
    → item_at x.key ys ≡ none
    → item_at j (set_insert x ys) ≡ (if same_str x.key j then some x else item_at j ys)
unfolding set_insert
item_at-set_insert x [] j h = refl
item_at-set_insert x (y ∷ ys) j h =
    let (other, absent) = absent_parts x.key y ys h in
    elim (Bool-cases (item_less x y)) [
      | inl e ↦ rw e refl
      | inr e ↦ elim (Bool-cases (item_less y x)) [
        | inl e' ↦
            rw (e, e')
              (ap (λ o. if same_str y.key j then some y else o) (item_at-set_insert x ys j absent)
                ∙ swapped y.key x.key j (some y) (some x) (item_at j ys) other)
        | inr e' ↦ absurd (
            not_false (
              sym (same_str_refl x.key)
              ∙ ap (λ k. same_str k x.key) (same_key_of x y e e')
              ∙ other))
      ]
    ]
  where
    -- Two keys that differ are not both `j`.
    swapped :
        (a b j : Str) (p q r : Option Item)
        → same_str a b ≡ false
        → (if same_str a j then p else (if same_str b j then q else r))
          ≡ (if same_str b j then q else (if same_str a j then p else r))
    swapped a b j p q r d = elim (Bool-cases (same_str a j)) [
      | inr e ↦ rw e refl
      | inl e ↦ elim (Bool-cases (same_str b j)) [
        | inr e' ↦ rw (e, e') refl
        | inl e' ↦ absurd (
            not_false (
              sym (same_str_refl a)
              ∙ ap (λ x. same_str a x) (same_str_eq a j e ∙ sym (same_str_eq b j e'))
              ∙ d))
      ]
    ]

same_item_refl : (x : Item) → same_item x x ≡ true
same_item_refl x = rw ==_refl (same_str_refl x.key)

differs-key : (y x : Item) → same_str y.key x.key ≡ false → same_item y x ≡ false
differs-key y x h = ground arith

pub some_item : {x y : Item} → some x ≡ some y → x ≡ y
some_item p = cc

-- Erasing the item of a key leaves no item with it.
pub item_at-set_erase :
    (x : Item) (ys : List Item) (j : Str)
    → Distinct ys
    → item_at x.key ys ≡ some x
    → item_at j (set_erase x ys) ≡ (if same_str x.key j then none else item_at j ys)
unfolding set_erase
item_at-set_erase x [] j d h = absurd (not_none (sym h))
item_at-set_erase x (y ∷ ys) j d h = elim (Bool-cases (same_str y.key x.key)) [
  | inl e ↦
      let it : y ≡ x = some_item (rw e at h) in
      let gone : same_item y x ≡ true = ap (λ z. same_item z x) it ∙ same_item_refl x in
      rw gone (at_head x y ys j it d.0)
  | inr e ↦
      let rest : item_at x.key ys ≡ some x = rw e at h in
      rw (differs-key y x e) (
        ap (λ o. if same_str y.key j then some y else o) (item_at-set_erase x ys j d.1 rest)
        ∙ kept x y ys j e)
]
  where
    at_head :
        (x y : Item) (ys : List Item) (j : Str)
        → y ≡ x
        → item_at y.key ys ≡ none
        → item_at j ys
          ≡ (if same_str x.key j then none else (if same_str y.key j then some y else item_at j ys))
    at_head x y ys j it n = elim (Bool-cases (same_str x.key j)) [
      | inr e ↦ rw (e, ap (λ (z : Item). same_str z.key j) it ∙ e) refl
      | inl e ↦
          rw e
            (ap (λ k. item_at k ys) (sym (ap (λ (z : Item). z.key) it ∙ same_str_eq x.key j e)) ∙ n)
    ]

    kept :
        (x y : Item) (ys : List Item) (j : Str)
        → same_str y.key x.key ≡ false
        → (if same_str y.key j then some y else (if same_str x.key j then none else item_at j ys))
          ≡ (if same_str x.key j then none else (if same_str y.key j then some y else item_at j ys))
    kept x y ys j d = elim (Bool-cases (same_str y.key j)) [
      | inr e ↦ rw e refl
      | inl e ↦ elim (Bool-cases (same_str x.key j)) [
        | inr e' ↦ rw (e, e') refl
        | inl e' ↦ absurd (
            not_false (
              sym (same_str_refl y.key)
              ∙ ap (λ z. same_str y.key z) (same_str_eq y.key j e ∙ sym (same_str_eq x.key j e'))
              ∙ d))
      ]
    ]
