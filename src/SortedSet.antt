-- ===== src/SortedSet.antt =====
-- server-5204/util/sorted_set.h and sorted_set.cpp: class SortedSet, keys with scores, in order of score.
-- `std::set<Item>` is the list of its items in order, `std::map` an association list, and an iterator that
-- is kept is the item it stands at. A score (int64_t) is given by its distance from the least one.
pub mod Order
pub mod Items
pub mod Keeps
pub mod Table
pub mod Ends
use expert_spoon.Prelude.{
  ℕ, zero, suc, ◌+◌, ◌^◌, ◌≡◌, Bool, true, false, not, ◌&&◌, ◌||◌, Option, none, some, List, [],
  ◌∷◌, Str, ltb, ◌==◌, if◌then◌else◌, length,
}

-- operator < and == on std::string
unfoldable pub str_less : Str → Str → Bool
str_less a [] = false
str_less [] (y ∷ ys) = true
str_less (x ∷ xs) (y ∷ ys) = ltb x y || (x == y && str_less xs ys)

unfoldable pub same_str : Str → Str → Bool
same_str [] [] = true
same_str [] (y ∷ ys) = false
same_str (x ∷ xs) [] = false
same_str (x ∷ xs) (y ∷ ys) = x == y && same_str xs ys

pub record Item : Type 0 where
  pub key : Str
  pub score : ℕ

-- Item::operator<
unfoldable pub item_less : Item → Item → Bool
item_less a b = ltb a.score b.score || (a.score == b.score && str_less a.key b.key)

-- std::set's insert keeps an item that is there.
unfoldable pub set_insert : Item → List Item → List Item
set_insert x [] = x ∷ []
set_insert x (y ∷ ys) =
    let rest = set_insert x ys in
    if item_less x y then x ∷ y ∷ ys else if item_less y x then y ∷ rest else y ∷ ys

abbrev pub same_item : Item → Item → Bool
same_item x y = x.score == y.score && same_str x.key y.key

-- erase at the iterator that stands at `x`
unfoldable pub set_erase : Item → List Item → List Item
set_erase x [] = []
set_erase x (y ∷ ys) = let rest = set_erase x ys in if same_item y x then ys else y ∷ rest

-- std::map: find, assignment and erase
unfoldable pub map_find : Str → List (Str × Item) → Option Item
map_find k [] = none
map_find k ((j, x) ∷ m) = if same_str j k then some x else map_find k m

abbrev pub map_put : Str → Item → List (Str × Item) → List (Str × Item)
map_put k x m = (k, x) ∷ m

unfoldable pub map_erase : Str → List (Str × Item) → List (Str × Item)
map_erase k [] = []
map_erase k ((j, x) ∷ m) = let rest = map_erase k m in if same_str j k then rest else (j, x) ∷ rest

pub record SortedSet : Type 0 where
  pub existed : List (Str × Item)
  pub sorted_set : List Item

unfoldable pub size : SortedSet → ℕ
size s = length s.sorted_set

abbrev pub item : Str → ℕ → Item
item key score = record { key = key; score = score }

-- the item is inserted, and its iterator kept
unfoldable pub add_item : Item → SortedSet → SortedSet
add_item x s = record {
  existed = map_put x.key x s.existed;
  sorted_set = set_insert x s.sorted_set;
}

-- The branch of `add` where the key was found with `old`.
unfoldable pub add_found : Str → ℕ → Item → SortedSet → ℕ × SortedSet
add_found key score old s =
    if old.score == score
    then (0, s)
    else (0, add_item (item key score) (record s { sorted_set = set_erase old s.sorted_set }))

-- 1 for a new key, 0 otherwise
unfoldable pub add : Str → ℕ → SortedSet → ℕ × SortedSet
add key score s = elim (map_find key s.existed) [
  | none ↦ (1, add_item (item key score) s)
  | some old ↦ add_found key score old s
]

unfoldable pub del : Str → SortedSet → ℕ × SortedSet
del key s = elim (map_find key s.existed) [
  | none ↦ (0, s)
  | some old ↦
      (1, record { existed = map_erase key s.existed; sorted_set = set_erase old s.sorted_set })
]

-- the item that the result 1 comes with
unfoldable pub front : SortedSet → Option Item
front s = elim s.sorted_set [ [] ↦ none | x ∷ xs ↦ some x ]

abbrev pub last : Item → List Item → Item
last x [] = x
last x (y ∷ ys) = last y ys

unfoldable pub back : SortedSet → Option Item
back s = elim s.sorted_set [ [] ↦ none | x ∷ xs ↦ some (last x xs) ]

-- 0, which is 2^63 above the least score, where the set is empty
unfoldable pub max_score : SortedSet → ℕ
max_score s = elim (back s) [ none ↦ 2 ^ 63 | some x ↦ x.score ]

-- the item is taken from the map and from the set
abbrev pub drop_item : Item → SortedSet → SortedSet
drop_item x s = record {
  existed = map_erase x.key s.existed;
  sorted_set = set_erase x s.sorted_set;
}

unfoldable pub pop_front : SortedSet → ℕ × SortedSet
pop_front s = elim (front s) [ none ↦ (0, s) | some x ↦ (1, drop_item x s) ]

unfoldable pub pop_back : SortedSet → ℕ × SortedSet
pop_back s = elim (back s) [ none ↦ (0, s) | some x ↦ (1, drop_item x s) ]
