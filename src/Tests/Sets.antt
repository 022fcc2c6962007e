-- ===== src/Tests/Sets.antt =====
-- A SortedSet of three keys.
use expert_spoon.Prelude.{◌≡◌, refl, none, some, [], ◌∷◌, Str}
use expert_spoon.SortedSet.{
  SortedSet, item, same_str, add, add_item, add_found, del, front, back, pop_front, pop_back,
  set_insert, set_erase, item_less, str_less, map_find,
}
use expert_spoon.SortedSet.Items.{item_at, Before}
use expert_spoon.SortedSet.Table.{IsValid, Adds, add-Adds, Removes, del-Removes}
use expert_spoon.SortedSet.Ends.{pops_lem, Behind}

abbrev empty_set : SortedSet
empty_set = record { existed = []; sorted_set = [] }

empty-IsValid : IsValid empty_set
empty-IsValid = record { found = λ k. unfold map_find in refl; distinct = tt; sorted = tt }

abbrev key_a : Str
key_a = b'a' ∷ []

abbrev key_b : Str
key_b = b'b' ∷ []

-- "b" first, then "a" with the same score, then "b" again with a lower one.
abbrev after_b : SortedSet
after_b = (add key_b 7 empty_set).1

abbrev after_a : SortedSet
after_a = (add key_a 7 after_b).1

abbrev moved_b : SortedSet
moved_b = (add key_b 3 after_a).1

after_b-IsValid : IsValid after_b
after_b-IsValid = (add-Adds key_b 7 empty_set empty-IsValid).valid

after_a-IsValid : IsValid after_a
after_a-IsValid = (add-Adds key_a 7 after_b after_b-IsValid).valid

moved_b-IsValid : IsValid moved_b
moved_b-IsValid = (add-Adds key_b 3 after_a after_a-IsValid).valid

add-Adds_example : Adds key_b 3 after_a (add key_b 3 after_a)
add-Adds_example = add-Adds key_b 3 after_a after_a-IsValid

moved_runs : moved_b.sorted_set ≡ item key_b 3 ∷ item key_a 7 ∷ []
unfolding add add_item add_found set_insert set_erase item_less str_less same_str map_find
moved_runs = refl

del-Removes_example :
    Removes key_a moved_b (del key_a moved_b).1
    × ((del key_a moved_b).0 ≡ elim (item_at key_a moved_b.sorted_set) [ none ↦ 0 | some x ↦ 1 ])
del-Removes_example = del-Removes key_a moved_b moved_b-IsValid

front_runs : front moved_b ≡ some (item key_b 3)
unfolding front add add_item add_found set_insert set_erase item_less str_less same_str map_find
front_runs = refl

back_runs : back moved_b ≡ some (item key_a 7)
unfolding back add add_item add_found set_insert set_erase item_less str_less same_str map_find
back_runs = refl

pops_lem_example :
    (((pop_front moved_b).0 ≡ 1)
      × Removes key_b moved_b (pop_front moved_b).1
      × Before (item key_b 3) (pop_front moved_b).1.sorted_set)
    × (((pop_back moved_b).0 ≡ 1)
        × Removes key_a moved_b (pop_back moved_b).1
        × Behind (item key_a 7) (pop_back moved_b).1.sorted_set)
pops_lem_example =
    pops_lem moved_b (item key_b 3) (item key_a 7) moved_b-IsValid front_runs back_runs
