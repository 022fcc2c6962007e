-- ===== src/Config/Lookup.antt =====
-- Config (server-5204/util/config.cpp) as a table from paths to values: `get_str` after `set`.
use expert_spoon.Prelude.{
  ◌≡◌, refl, sym, ap, ◌∙◌, subst, Bool, true, false, ◌&&◌, Option, none, some, List, [], ◌∷◌, Str,
  if◌then◌else◌, inl, inr, Bool-cases, Option-cases,
}
use expert_spoon.SortedSet.{same_str}
use expert_spoon.SortedSet.Order.{same_str_eq}
use expert_spoon.Config.{
  Config, config, Children, no_child, val_of, fields, find_child, at_child, set_at, set, get_at,
  get, get_str,
}
use expert_spoon.Config.Find.{Keeps, or_new, find_child-at_child, find_child_other}

-- A new node's value is empty, and so is that of a path that leads nowhere.
abbrev value_at : Option Config → Str
value_at none = []
value_at (some d) = val_of d

abbrev pub same_path : List Str → List Str → Bool
same_path [] [] = true
same_path [] (g ∷ gs) = false
same_path (f ∷ fs) [] = false
same_path (f ∷ fs) (g ∷ gs) = same_str f g && same_path fs gs

set_at-Keeps : (fs : List Str) (v : Str) → Keeps (set_at fs v)
unfolding set_at
set_at-Keeps [] v (config key val cs) = refl
set_at-Keeps (f ∷ fs) v (config key val cs) = refl

nothing_new : (gs : List Str) (f : Str) → value_at (get_at gs (config f [] no_child)) ≡ []
unfolding get_at find_child
nothing_new [] f = refl
nothing_new (g ∷ gs) f = refl

next_value : List Str → Option Config → Str
next_value gs none = []
next_value gs (some d) = value_at (get_at gs d)

value_step :
    (g : Str) (gs : List Str) (key val : Str) (cs : Children)
    → value_at (get_at (g ∷ gs) (config key val cs)) ≡ next_value gs (find_child g cs)
unfolding get_at next_value
value_step g gs key val cs = elim (Option-cases (find_child g cs)) [
  | inl e ↦ rw (e, get_at) refl
  | inr (d, e) ↦ rw (e, get_at) refl
]

value_or_new :
    (gs : List Str) (g : Str) (o : Option Config)
    → value_at (get_at gs (or_new g o)) ≡ next_value gs o
unfolding next_value
value_or_new gs g none = nothing_new gs g
value_or_new gs g (some d) = refl

get_at-set_at :
    (fs gs : List Str) (v : Str) (c : Config)
    → value_at (get_at gs (set_at fs v c)) ≡ (if same_path fs gs then v else value_at (get_at gs c))
unfolding set_at get_at next_value
get_at-set_at [] [] v (config key val cs) = refl
get_at-set_at [] (g ∷ gs) v (config key val cs) = refl
get_at-set_at (f ∷ fs) [] v (config key val cs) = refl
get_at-set_at (f ∷ fs) (g ∷ gs) v (config key val cs) = elim (Bool-cases (same_str f g)) [
  | inl b ↦ rw b (
      subst
        (λ x.
          value_at (get_at (x ∷ gs) (set_at (f ∷ fs) v (config key val cs)))
          ≡ (if same_path fs gs then v else value_at (get_at (x ∷ gs) (config key val cs))))
        (same_str_eq f g b)
        (value_step f gs key val (at_child f (set_at fs v) cs)
          ∙ ap (next_value gs) (find_child-at_child f (set_at fs v) cs (set_at-Keeps fs v))
          ∙ get_at-set_at fs gs v (or_new f (find_child f cs))
          ∙ ap (λ x. if same_path fs gs then v else x)
              (value_or_new gs f (find_child f cs) ∙ sym (value_step f gs key val cs))))
  | inr b ↦ rw (b) (
      value_step g gs key val (at_child f (set_at fs v) cs)
      ∙ ap (next_value gs) (find_child_other f g (set_at fs v) cs (set_at-Keeps fs v) b)
      ∙ sym (value_step g gs key val cs))
]

get_str_value : (k : Str) (c : Config) → get_str k c ≡ value_at (get_at (fields k) c)
unfolding get_str get
get_str_value k c = elim (Option-cases (get_at (fields k) c)) [
  | inl e ↦ rw (e, get_str) refl
  | inr (d, e) ↦ rw (e, get_str) refl
]

-- After `set` of a path, `get_str` of a path with the same fields gives the value set, and of every
-- other path what it gave before: the nodes that `set` makes on its way have empty values, as paths
-- that lead nowhere have.
pub get_str-set :
    (key v k : Str) (c : Config)
    → get_str k (set key v c) ≡ (if same_path (fields key) (fields k) then v else get_str k c)
unfolding set
get_str-set key v k c =
    get_str_value k (set key v c)
    ∙ get_at-set_at (fields key) (fields k) v c
    ∙ ap (λ x. if same_path (fields key) (fields k) then v else x) (sym (get_str_value k c))
