-- ===== src/Config.antt =====
-- Config (server-5204/util/config.cpp): the tree of entries. The methods that change a node in place are
-- functions from the tree to the tree; a node's depth is where it stands.
pub mod Find
pub mod Lookup
use expert_spoon.Prelude.{
  ℕ, ◌-◌, zero, suc, Bool, true, false, ◌||◌, Option, none, some, List, [], ◌∷◌, ◌++◌, Str,
  if◌then◌else◌, ◌==◌, take,
}
use expert_spoon.SortedSet.{same_str}

mutual
  pub data Config : Type 0 where
    config : Str → Str → Children → Config

  pub data Children : Type 0 where
    no_child : Children
    child : Config → Children → Children

abbrev pub key_of : Config → Str
key_of (config key val children) = key

abbrev pub val_of : Config → Str
val_of (config key val children) = val

abbrev pub children_of : Config → Children
children_of (config key val children) = children

-- CONFIG_MAX_LINE
abbrev pub max_line : ℕ
max_line = 4096

-- The fields of a path, which '.' and '/' part; a path has at least one.
unfoldable pub is_field_separator : ℕ → Bool
is_field_separator c = c == b'.' || c == b'/'

unfoldable pub fields_from : Str → Str → List Str
fields_from field [] = field ∷ []
fields_from field (c ∷ s) =
    if is_field_separator c then field ∷ fields_from [] s else fields_from (field ++ c ∷ []) s

-- snprintf(path, CONFIG_MAX_LINE, "%s", key) and the two loops over `path`
unfoldable pub fields : Str → List Str
fields key = fields_from [] (take (max_line - 1) key)

-- find_child: from the last child on
unfoldable pub find_child : Str → Children → Option Config
find_child key no_child = none
find_child key (child c cs) = elim (find_child key cs) [
  | some d ↦ some d
  | none ↦ if same_str (key_of c) key then some c else none
]

-- add_child
unfoldable pub add_child : Config → Children → Children
add_child d no_child = child d no_child
add_child d (child c cs) = child c (add_child d cs)

-- A change of the child that `find_child` gives.
unfoldable pub change_child : Str → (Config → Config) → Children → Children
change_child key g no_child = no_child
change_child key g (child c cs) = elim (find_child key cs) [
  | some d ↦ child c (change_child key g cs)
  | none ↦ if same_str (key_of c) key then child (g c) cs else child c cs
]

-- A field of `build_key_path`: the child that is there, or a new one.
unfoldable pub at_child : Str → (Config → Config) → Children → Children
at_child key g cs = elim (find_child key cs) [
  | some d ↦ change_child key g cs
  | none ↦ add_child (g (config key [] no_child)) cs
]

-- build_key_path, and the assignment of `set` to the node at its end
unfoldable pub set_at : List Str → Str → Config → Config
set_at [] v (config key val cs) = config key v cs
set_at (f ∷ fs) v (config key val cs) = config key val (at_child f (set_at fs v) cs)

unfoldable pub set : Str → Str → Config → Config
set key v c = set_at (fields key) v c

-- the loop of `get`
unfoldable pub get_at : List Str → Config → Option Config
get_at [] c = some c
get_at (f ∷ fs) (config key val cs) = elim (find_child f cs) [ none ↦ none | some d ↦ get_at fs d ]

unfoldable pub get : Str → Config → Option Config
get key c = get_at (fields key) c

unfoldable pub get_str : Str → Config → Str
get_str key c = elim (get key c) [ none ↦ [] | some d ↦ val_of d ]
