-- ===== src/SortedSet/Ends.antt =====
-- The two ends of a SortedSet (server-5204/util/sorted_set.cpp): front and pop_front, back and pop_back.
use expert_spoon.Prelude.{
  ◌≡◌, refl, sym, ap, ap₂, subst, ◌∙◌, Bool, true, false, inl, inr, none, some, List, [], ◌∷◌, ◌==◌,
  Bool-cases, All, ==_refl, ◌&&◌,
}
use expert_spoon.SortedSet.{
  same_str, Item, item_less, set_erase, same_item, SortedSet, front, back, last, drop_item,
  pop_front, pop_back,
}
use expert_spoon.SortedSet.Order.{same_str_refl, same_str_eq}
use expert_spoon.SortedSet.Items.{item_at, Distinct, Before, Sorted, not_none}
use expert_spoon.SortedSet.Table.{IsValid, Removes, drop_item-Removes}

front_head :
    (s : SortedSet) (x : Item) → front s ≡ some x → (xs : List Item) × (s.sorted_set ≡ x ∷ xs)
unfolding front
front_head s x h = head_of s.sorted_set h
  where
    head_of :
        (l : List Item)
        → (elim l [ [] ↦ none | y ∷ ys ↦ some y ]) ≡ some x
        → (xs : List Item) × (l ≡ x ∷ xs)
    head_of [] e = absurd (not_none (sym e))
    head_of (y ∷ ys) e = (ys, cc)

item_at_head : (x : Item) (xs : List Item) → item_at x.key (x ∷ xs) ≡ some x
item_at_head x xs = rw (same_str_refl x.key) refl

erase_head : (x : Item) (xs : List Item) → set_erase x (x ∷ xs) ≡ xs
unfolding set_erase
erase_head x xs = rw (==_refl, same_str_refl x.key) refl

pop_front-some : (s : SortedSet) (x : Item) → front s ≡ some x → pop_front s ≡ (1, drop_item x s)
unfolding pop_front
pop_front-some s x h = rw (h, pop_front) refl

-- `pop_front` on a valid set that is not empty returns 1 and removes the item that `front` gives and
-- no other; every item left comes behind it.
pub pop_front-Removes :
    (s : SortedSet) (x : Item)
    → IsValid s
    → front s ≡ some x
    → ((pop_front s).0 ≡ 1) × Removes x.key s (pop_front s).1 × Before x (pop_front s).1.sorted_set
pop_front-Removes s x v h =
    let (xs, e) = front_head s x h in
    let at_key : item_at x.key s.sorted_set ≡ some x = ap (item_at x.key) e ∙ item_at_head x xs in
    let sorted : Sorted (x ∷ xs) = subst Sorted e v.sorted in
    let left : set_erase x s.sorted_set ≡ xs = ap (set_erase x) e ∙ erase_head x xs in
    rw (pop_front-some s x h)
      (refl, drop_item-Removes x s v at_key, subst (Before x) (sym left) sorted.0)

-- Every item comes before `x`.
abbrev pub Behind : Item → List Item → Type 0
Behind x ys = All (λ y. item_less y x ≡ true) ys

last_of :
    (s : SortedSet) (x : Item)
    → back s ≡ some x
    → (y : Item) × (ys : List Item) × (s.sorted_set ≡ y ∷ ys) × (x ≡ last y ys)
unfolding back
last_of s x h = tail_of s.sorted_set h
  where
    tail_of :
        (l : List Item)
        → (elim l [ [] ↦ none | y ∷ ys ↦ some (last y ys) ]) ≡ some x
        → (y : Item) × (ys : List Item) × (l ≡ y ∷ ys) × (x ≡ last y ys)
    tail_of [] e = absurd (not_none (sym e))
    tail_of (y ∷ ys) e = (y, ys, refl, cc)

-- The last item of a set is what its key finds.
item_at-last :
    (y : Item) (ys : List Item)
    → Distinct (y ∷ ys)
    → item_at (last y ys).key (y ∷ ys) ≡ some (last y ys)
item_at-last y [] d = item_at_head y []
item_at-last y (z ∷ zs) d =
    let found = item_at-last z zs d.1 in
    elim (Bool-cases (same_str y.key (last z zs).key)) [
      | inr e ↦ rw e found
      | inl e ↦ absurd (
          not_none (
            sym found
            ∙ ap (λ k. item_at k (z ∷ zs)) (sym (same_str_eq y.key (last z zs).key e))
            ∙ d.0))
    ]

Before-last : (y z : Item) (zs : List Item) → Before y (z ∷ zs) → item_less y (last z zs) ≡ true
Before-last y z [] b = b.0
Before-last y z (w ∷ zs) b = Before-last y w zs b.1

other_item : (y x : Item) → same_str y.key x.key ≡ false → same_item y x ≡ false
other_item y x h = both_false (y.score == x.score) (same_str y.key x.key) h
  where
    both_false : (a b : Bool) → b ≡ false → (a && b) ≡ false
    both_false true b e = e
    both_false false b e = refl

-- Without the last, every item is before it.
erase_last :
    (y : Item) (ys : List Item)
    → Distinct (y ∷ ys)
    → Sorted (y ∷ ys)
    → Behind (last y ys) (set_erase (last y ys) (y ∷ ys))
erase_last y [] d s = subst (Behind y) (sym (erase_head y [])) tt
erase_last y (z ∷ zs) d s = elim (Bool-cases (same_str y.key (last z zs).key)) [
  | inl e ↦ absurd (
      not_none (
        sym (item_at-last z zs d.1)
        ∙ ap (λ k. item_at k (z ∷ zs)) (sym (same_str_eq y.key (last z zs).key e))
        ∙ d.0))
  | inr e ↦
      subst (Behind (last z zs))
        (sym (erase_behind (last z zs) y (z ∷ zs) (other_item y (last z zs) e)))
        (Before-last y z zs s.0, erase_last z zs d.1 s.1)
]
  where
    erase_behind :
        (x y : Item) (ys : List Item)
        → same_item y x ≡ false
        → set_erase x (y ∷ ys) ≡ y ∷ set_erase x ys
    erase_behind x y ys e = unfold set_erase in rw e refl

pop_back-some : (s : SortedSet) (x : Item) → back s ≡ some x → pop_back s ≡ (1, drop_item x s)
unfolding pop_back
pop_back-some s x h = rw (h, pop_back) refl

-- `pop_back` on a valid set that is not empty returns 1 and removes the item that `back` gives and
-- no other; every item left comes before it.
pub pop_back-Removes :
    (s : SortedSet) (x : Item)
    → IsValid s
    → back s ≡ some x
    → ((pop_back s).0 ≡ 1) × Removes x.key s (pop_back s).1 × Behind x (pop_back s).1.sorted_set
pop_back-Removes s x v h =
    let (y, ys, e, it) = last_of s x h in
    let distinct : Distinct (y ∷ ys) = subst Distinct e v.distinct in
    let at_key : item_at x.key s.sorted_set ≡ some x =
      ap₂ (λ (z : Item) l. item_at z.key l) it e ∙ item_at-last y ys distinct ∙ ap some (sym it) in
    let left : set_erase x s.sorted_set ≡ set_erase (last y ys) (y ∷ ys) = ap₂ set_erase it e in
    rw (pop_back-some s x h) (
      refl,
      drop_item-Removes x s v at_key,
      subst (Behind x) (sym left) (
          subst (λ z. Behind z (set_erase (last y ys) (y ∷ ys))) (sym it)
            (erase_last y ys distinct (subst Sorted e v.sorted))),
    )

-- On a valid set that is not empty `pop_front` and `pop_back` return 1, and each removes the item
-- that `front` or `back` gives and no other: every item left comes behind the one, or before the
-- other.
pub pops_lem :
    (s : SortedSet) (x y : Item)
    → IsValid s
    → front s ≡ some x
    → back s ≡ some y
    → (((pop_front s).0 ≡ 1)
        × Removes x.key s (pop_front s).1
        × Before x (pop_front s).1.sorted_set)
      × (((pop_back s).0 ≡ 1) × Removes y.key s (pop_back s).1 × Behind y (pop_back s).1.sorted_set)
pops_lem s x y v f b = (pop_front-Removes s x v f, pop_back-Removes s y v b)
