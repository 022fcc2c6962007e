-- ===== src/SortedSet/Table.antt =====
-- class SortedSet against a table from keys to items (server-5204/util/sorted_set.cpp).
use expert_spoon.Prelude.{
  ℕ, ◌≡◌, refl, sym, ap, ap₂, subst, ◌∙◌, false, inl, inr, none, some, List, Str, ◌==◌, ==→eq,
  if◌then◌else◌, Bool-cases, Option-cases,
}
use expert_spoon.SortedSet.{
  same_str, Item, item, set_erase, map_find, map_erase, SortedSet, add, add_item, add_found, del,
  drop_item,
}
use expert_spoon.SortedSet.Order.{same_str_refl, same_str_eq}
use expert_spoon.SortedSet.Items.{item_at, Distinct, Sorted, item_at-set_insert, item_at-set_erase}
use expert_spoon.SortedSet.Keeps.{
  set_insert-Distinct, set_erase-Distinct, set_insert-Sorted, set_erase-Sorted, map_find-map_put,
  map_find-map_erase, key-item_at,
}

-- The map finds for each key the item of the set that has it; the set is in order and has no key twice.
pub record IsValid (s : SortedSet) : Type 0 where
  pub found : (k : Str) → map_find k s.existed ≡ item_at k s.sorted_set
  pub distinct : Distinct s.sorted_set
  pub sorted : Sorted s.sorted_set

if_same :
    {A : Type 0} (k j : Str) (x y z : A)
    → (same_str k j ≡ false → y ≡ z)
    → (if same_str k j then x else y) ≡ (if same_str k j then x else z)
if_same k j x y z h = elim (Bool-cases (same_str k j)) [
  | inl e ↦ rw e refl
  | inr e ↦ ap (λ w. if same_str k j then x else w) (h e)
]

-- Inserting an item whose key the set has not, where the map agrees with the set on the other keys.
add_item-IsValid :
    (x : Item) (s : SortedSet)
    → ((k : Str) → same_str x.key k ≡ false → map_find k s.existed ≡ item_at k s.sorted_set)
    → Distinct s.sorted_set
    → Sorted s.sorted_set
    → item_at x.key s.sorted_set ≡ none
    → IsValid (add_item x s)
unfolding add_item
add_item-IsValid x s f d o absent = record {
  found = λ k.
      map_find-map_put x.key x s.existed k
      ∙ if_same x.key k (some x) _ _ (f k)
      ∙ sym (item_at-set_insert x s.sorted_set k absent);
  distinct = set_insert-Distinct x s.sorted_set absent d;
  sorted = set_insert-Sorted x s.sorted_set o;
}

drop_item-IsValid :
    (x : Item) (s : SortedSet)
    → IsValid s
    → item_at x.key s.sorted_set ≡ some x
    → IsValid (drop_item x s)
drop_item-IsValid x s v h = record {
  found = λ k.
      map_find-map_erase x.key s.existed k
      ∙ if_same x.key k none _ _ (λ _. v.found k)
      ∙ sym (item_at-set_erase x s.sorted_set k v.distinct h);
  distinct = set_erase-Distinct x s.sorted_set v.distinct;
  sorted = set_erase-Sorted x s.sorted_set v.sorted;
}

-- What `add` leaves in the table, and its result.
pub record Adds (key : Str) (score : ℕ) (s : SortedSet) (r : ℕ × SortedSet) : Type 0 where
  pub valid : IsValid r.1
  pub table :
      (j : Str)
      → item_at j r.1.sorted_set
        ≡ (if same_str key j then some (item key score) else item_at j s.sorted_set)
  pub result : r.0 ≡ elim (item_at key s.sorted_set) [ none ↦ 1 | some x ↦ 0 ]

add_new :
    (key : Str) (score : ℕ) (s : SortedSet)
    → IsValid s
    → item_at key s.sorted_set ≡ none
    → Adds key score s (1, add_item (item key score) s)
unfolding add_item
add_new key score s v h = record {
  valid =
      unfold add_item in
      add_item-IsValid (item key score) s (λ k _. v.found k) v.distinct v.sorted h;
  table = λ j. item_at-set_insert (item key score) s.sorted_set j h;
  result = rw h refl;
}

-- The item that the set has at a key is found at its own key.
pub own_key :
    (key : Str) (ys : List Item) (old : Item)
    → item_at key ys ≡ some old
    → item_at old.key ys ≡ some old
own_key key ys old h = ap (λ k. item_at k ys) (key-item_at key ys old h) ∙ h

add_kept :
    (key : Str) (score : ℕ) (old : Item) (s : SortedSet)
    → IsValid s
    → item_at key s.sorted_set ≡ some old
    → old.score ≡ score
    → Adds key score s (0, s)
add_kept key score old s v h e = record {
  valid = v;
  table = λ j. elim (Bool-cases (same_str key j)) [
    | inr d ↦ rw d refl
    | inl d ↦ rw d (
        ap (λ k. item_at k s.sorted_set) (sym (same_str_eq key j d))
        ∙ h
        ∙ ap₂ (λ k n. some (item k n)) (key-item_at key s.sorted_set old h) e)
  ];
  result = rw h refl;
}

erased_absent :
    (key : Str) (old : Item) (ys : List Item)
    → Distinct ys
    → item_at key ys ≡ some old
    → item_at key (set_erase old ys) ≡ none
erased_absent key old ys d h =
    item_at-set_erase old ys key d (own_key key ys old h)
    ∙ ap (λ b. if b then none else item_at key ys)
        (ap (λ k. same_str k key) (key-item_at key ys old h) ∙ same_str_refl key)

erased_other :
    (key : Str) (old : Item) (ys : List Item) (j : Str)
    → Distinct ys
    → item_at key ys ≡ some old
    → same_str key j ≡ false
    → item_at j (set_erase old ys) ≡ item_at j ys
erased_other key old ys j d h e =
    item_at-set_erase old ys j d (own_key key ys old h)
    ∙ ap (λ b. if b then none else item_at j ys)
        (ap (λ k. same_str k j) (key-item_at key ys old h) ∙ e)

add_moved :
    (key : Str) (score : ℕ) (old : Item) (s : SortedSet)
    → IsValid s
    → item_at key s.sorted_set ≡ some old
    → Adds key score s
        (0, add_item (item key score) (record s { sorted_set = set_erase old s.sorted_set }))
add_moved key score old s v h =
    let ys = s.sorted_set in
    let left : SortedSet = record s { sorted_set = set_erase old ys } in
    let absent = erased_absent key old ys v.distinct h in
    record {
      valid =
          add_item-IsValid (item key score) left
            (λ k e. v.found k ∙ sym (erased_other key old ys k v.distinct h e))
            (set_erase-Distinct old ys v.distinct) (set_erase-Sorted old ys v.sorted) absent;
      table =
          unfold add_item in
          λ j.
            item_at-set_insert (item key score) (set_erase old ys) j absent
            ∙ if_same key j (some (item key score)) _ _
                (λ e. erased_other key old ys j v.distinct h e);
      result = rw h refl;
    }

-- `add` on a valid set leaves a valid set (in order, no key twice, the map and the set agree): its
-- key then has the new score and every other key what it had, and the result is 1 for a new key and
-- 0 otherwise.
pub add-Adds :
    (key : Str) (score : ℕ) (s : SortedSet) → IsValid s → Adds key score s (add key score s)
unfolding add add_found
add-Adds key score s v = elim (Option-cases (map_find key s.existed)) [
  | inl e ↦ rw (e, add) (add_new key score s v (sym (v.found key) ∙ e))
  | inr (old, e) ↦ rw (e, add) (found_cases old (sym (v.found key) ∙ e))
]
  where
    found_cases :
        (old : Item)
        → item_at key s.sorted_set ≡ some old
        → Adds key score s (add_found key score old s)
    found_cases old h = elim (Bool-cases (old.score == score)) [
      | inl e ↦ rw (e, add_found) (add_kept key score old s v h (==→eq old.score score e))
      | inr e ↦ rw (e, add_found) (add_moved key score old s v h)
    ]

-- What `del`, or a pop that takes `key`, leaves in the table.
pub record Removes (key : Str) (s t : SortedSet) : Type 0 where
  pub valid : IsValid t
  pub table :
      (j : Str) → item_at j t.sorted_set ≡ (if same_str key j then none else item_at j s.sorted_set)

pub drop_item-Removes :
    (x : Item) (s : SortedSet)
    → IsValid s
    → item_at x.key s.sorted_set ≡ some x
    → Removes x.key s (drop_item x s)
drop_item-Removes x s v h = record {
  valid = drop_item-IsValid x s v h;
  table = λ j. item_at-set_erase x s.sorted_set j v.distinct h;
}

nothing-Removes :
    (key : Str) (s : SortedSet) → IsValid s → item_at key s.sorted_set ≡ none → Removes key s s
nothing-Removes key s v h = record {
  valid = v;
  table = λ j. elim (Bool-cases (same_str key j)) [
    | inr d ↦ rw d refl
    | inl d ↦ rw d (ap (λ k. item_at k s.sorted_set) (sym (same_str_eq key j d)) ∙ h)
  ];
}

-- `del` on a valid set leaves a valid set without the key, with every other key as it was; the
-- result says whether the key was there.
pub del-Removes :
    (key : Str) (s : SortedSet)
    → IsValid s
    → Removes key s (del key s).1
      × ((del key s).0 ≡ elim (item_at key s.sorted_set) [ none ↦ 0 | some x ↦ 1 ])
unfolding del
del-Removes key s v = elim (Option-cases (map_find key s.existed)) [
  | inl e ↦ let h = sym (v.found key) ∙ e in rw (e, h, del) (nothing-Removes key s v h, refl)
  | inr (old, e) ↦
      let h = sym (v.found key) ∙ e in
      let same = key-item_at key s.sorted_set old h in
      rw (e, h, del)
        (
          subst
              (λ k. Removes k s (record {
                existed = map_erase k s.existed;
                sorted_set = set_erase old s.sorted_set;
              }))
              same (drop_item-Removes old s v (own_key key s.sorted_set old h)),
          refl,
        )
]
