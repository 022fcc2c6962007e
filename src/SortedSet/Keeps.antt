-- ===== src/SortedSet/Keeps.antt =====
-- The ordered set and the map of iterators (server-5204/util/sorted_set.cpp): what insert and erase keep.
use expert_spoon.Prelude.{
  ◌≡◌, refl, sym, ap, ◌∙◌, true, false, inl, inr, none, some, List, [], ◌∷◌, Str, if◌then◌else◌,
  Bool-cases,
}
use expert_spoon.SortedSet.{
  same_str, Item, item_less, set_insert, set_erase, same_item, map_find, map_put, map_erase,
}
use expert_spoon.SortedSet.Order.{same_str_refl, same_str_eq, item_less_trans}
use expert_spoon.SortedSet.Items.{
  item_at, Distinct, Before, Sorted, item_at-set_insert, same_sym, absent_parts, not_false,
  not_none, some_item,
}

pub set_insert-Distinct :
    (x : Item) (ys : List Item) → item_at x.key ys ≡ none → Distinct ys → Distinct (set_insert x ys)
unfolding set_insert
set_insert-Distinct x [] h d = (refl, tt)
set_insert-Distinct x (y ∷ ys) h d =
    let (other, absent) = absent_parts x.key y ys h in
    let alone : item_at y.key (set_insert x ys) ≡ none =
      item_at-set_insert x ys y.key absent
      ∙ ap (λ b. if b then some x else item_at y.key ys) (same_sym y.key x.key other)
      ∙ d.0 in
    elim (Bool-cases (item_less x y)) [
      | inl e ↦ rw e (h, d)
      | inr e ↦ elim (Bool-cases (item_less y x)) [
        | inl e' ↦ rw (e, e') (alone, set_insert-Distinct x ys absent d.1)
        | inr e' ↦ rw (e, e') d
      ]
    ]

set_erase-absent :
    (x : Item) (ys : List Item) (k : Str) → item_at k ys ≡ none → item_at k (set_erase x ys) ≡ none
unfolding set_erase
set_erase-absent x [] k h = refl
set_erase-absent x (y ∷ ys) k h =
    let (other, absent) = absent_parts k y ys h in
    elim (Bool-cases (same_item y x)) [
      | inl e ↦ rw e absent
      | inr e ↦ rw (e, other) (set_erase-absent x ys k absent)
    ]

pub set_erase-Distinct : (x : Item) (ys : List Item) → Distinct ys → Distinct (set_erase x ys)
unfolding set_erase
set_erase-Distinct x [] d = tt
set_erase-Distinct x (y ∷ ys) d = elim (Bool-cases (same_item y x)) [
  | inl e ↦ rw e d.1
  | inr e ↦ rw e (set_erase-absent x ys y.key d.0, set_erase-Distinct x ys d.1)
]

Before-set_insert :
    (y x : Item) (ys : List Item) → item_less y x ≡ true → Before y ys → Before y (set_insert x ys)
unfolding set_insert
Before-set_insert y x [] h b = (h, tt)
Before-set_insert y x (z ∷ zs) h b = elim (Bool-cases (item_less x z)) [
  | inl e ↦ rw e (h, b)
  | inr e ↦ elim (Bool-cases (item_less z x)) [
    | inl e' ↦ rw (e, e') (b.0, Before-set_insert y x zs h b.1)
    | inr e' ↦ rw (e, e') b
  ]
]

Before-trans : (x y : Item) (ys : List Item) → item_less x y ≡ true → Before y ys → Before x ys
Before-trans x y [] h b = tt
Before-trans x y (z ∷ zs) h b = (item_less_trans x y z h b.0, Before-trans x y zs h b.1)

pub set_insert-Sorted : (x : Item) (ys : List Item) → Sorted ys → Sorted (set_insert x ys)
unfolding set_insert
set_insert-Sorted x [] s = (tt, tt)
set_insert-Sorted x (y ∷ ys) s = elim (Bool-cases (item_less x y)) [
  | inl e ↦ rw e ((e, Before-trans x y ys e s.0), s)
  | inr e ↦ elim (Bool-cases (item_less y x)) [
    | inl e' ↦ rw (e, e') (Before-set_insert y x ys e' s.0, set_insert-Sorted x ys s.1)
    | inr e' ↦ rw (e, e') s
  ]
]

Before-set_erase : (y x : Item) (ys : List Item) → Before y ys → Before y (set_erase x ys)
unfolding set_erase
Before-set_erase y x [] b = tt
Before-set_erase y x (z ∷ zs) b = elim (Bool-cases (same_item z x)) [
  | inl e ↦ rw e b.1
  | inr e ↦ rw e (b.0, Before-set_erase y x zs b.1)
]

pub set_erase-Sorted : (x : Item) (ys : List Item) → Sorted ys → Sorted (set_erase x ys)
unfolding set_erase
set_erase-Sorted x [] s = tt
set_erase-Sorted x (y ∷ ys) s = elim (Bool-cases (same_item y x)) [
  | inl e ↦ rw e s.1
  | inr e ↦ rw e (Before-set_erase y x ys s.0, set_erase-Sorted x ys s.1)
]

pub map_find-map_put :
    (k : Str) (x : Item) (m : List (Str × Item)) (j : Str)
    → map_find j (map_put k x m) ≡ (if same_str k j then some x else map_find j m)
unfolding map_find
map_find-map_put k x m j = refl

pub map_find-map_erase :
    (k : Str) (m : List (Str × Item)) (j : Str)
    → map_find j (map_erase k m) ≡ (if same_str k j then none else map_find j m)
unfolding map_find map_erase
map_find-map_erase k [] j = elim (Bool-cases (same_str k j)) [
  | inl e ↦ rw e refl
  | inr e ↦ rw e refl
]
map_find-map_erase k ((i, x) ∷ m) j = elim (Bool-cases (same_str i k)) [
  | inl e ↦ rw e (map_find-map_erase k m j ∙ erased (same_str_eq i k e))
  | inr e ↦ rw e (ap (λ o. if same_str i j then some x else o) (map_find-map_erase k m j) ∙ kept e)
]
  where
    erased :
        i ≡ k
        → (if same_str k j then none else map_find j m)
          ≡ (if same_str k j then none else (if same_str i j then some x else map_find j m))
    erased e = elim (Bool-cases (same_str k j)) [
      | inl h ↦ rw h refl
      | inr h ↦ rw (h, ap (λ a. same_str a j) e ∙ h) refl
    ]

    kept :
        same_str i k ≡ false
        → (if same_str i j then some x else (if same_str k j then none else map_find j m))
          ≡ (if same_str k j then none else (if same_str i j then some x else map_find j m))
    kept d = elim (Bool-cases (same_str i j)) [
      | inr h ↦ rw h refl
      | inl h ↦ elim (Bool-cases (same_str k j)) [
        | inr h' ↦ rw (h, h') refl
        | inl h' ↦ absurd (
            not_false (
              sym (same_str_refl i)
              ∙ ap (λ z. same_str i z) (same_str_eq i j h ∙ sym (same_str_eq k j h'))
              ∙ d))
      ]
    ]

pub key-item_at : (k : Str) (ys : List Item) (x : Item) → item_at k ys ≡ some x → x.key ≡ k
key-item_at k [] x h = absurd (not_none (sym h))
key-item_at k (y ∷ ys) x h = elim (Bool-cases (same_str y.key k)) [
  | inl e ↦ ap (λ (z : Item). z.key) (sym (some_item (rw e at h))) ∙ same_str_eq y.key k e
  | inr e ↦ key-item_at k ys x (rw e at h)
]
