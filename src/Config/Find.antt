-- ===== src/Config/Find.antt =====
-- Config (server-5204/util/config.cpp): what `find_child` gives behind `add_child` and a change of a child.
use expert_spoon.Prelude.{
  ◌≡◌, refl, sym, ap, ◌∙◌, subst, Bool, true, false, Option, none, some, [], Str, if◌then◌else◌,
  inl, inr, Bool-cases, Option-cases,
}
use expert_spoon.SortedSet.{same_str}
use expert_spoon.SortedSet.Order.{same_str_refl, same_str_eq}
use expert_spoon.Config.{
  Config, config, Children, no_child, child, key_of, find_child, add_child, change_child, at_child,
}

-- What a change that keeps the key leaves of the lookup.
abbrev pub Keeps : (Config → Config) → Type 0
Keeps g = (c : Config) → key_of (g c) ≡ key_of c

abbrev mapped : (Config → Config) → Option Config → Option Config
mapped g none = none
mapped g (some c) = some (g c)

found_key : (k : Str) (cs : Children) (d : Config) → find_child k cs ≡ some d → key_of d ≡ k
unfolding find_child
found_key k no_child d h = absurd (not_some h)
  where
    not_some : none ≡ some d → ⊥
    not_some e = cc
found_key k (child c cs) d h = elim (Option-cases (find_child k cs)) [
  | inr (x, e) ↦ ap key_of (sym (same x (rw e at h))) ∙ found_key k cs x e
  | inl e ↦ elim (Bool-cases (same_str (key_of c) k)) [
    | inl b ↦ ap key_of (sym (same c (rw (e, b) at h))) ∙ same_str_eq (key_of c) k b
    | inr b ↦ absurd (not_some (rw (e, b) at h))
  ]
]
  where
    same : (x : Config) → some x ≡ some d → x ≡ d
    same x q = cc

    not_some : none ≡ some d → ⊥
    not_some q = cc

find_child-add_child :
    (k : Str) (d : Config) (cs : Children)
    → find_child k (add_child d cs) ≡ (if same_str (key_of d) k then some d else find_child k cs)
unfolding find_child add_child
find_child-add_child k d no_child = refl
find_child-add_child k d (child c cs) =
    ap (λ o. elim o [ some x ↦ some x | none ↦ if same_str (key_of c) k then some c else none ])
      (find_child-add_child k d cs)
    ∙ push_in (same_str (key_of d) k)
  where
    push_in :
        (b : Bool)
        → ◌≡◌ {A = Option Config}
            (elim (if b then some d else find_child k cs) [
              | some x ↦ some x
              | none ↦ if same_str (key_of c) k then some c else none
            ])
            (if b then some d else find_child k (child c cs))
    push_in true = refl
    push_in false = refl

-- `find_child` of the first child where none behind it has the key.
behind : Str → Config → Option Config → Option Config
behind k c o = elim o [ some x ↦ some x | none ↦ if same_str (key_of c) k then some c else none ]

found_changed :
    (f : Str) (g : Config → Config) (cs : Children)
    → Keeps g
    → find_child f (change_child f g cs) ≡ mapped g (find_child f cs)
unfolding find_child change_child behind
found_changed f g no_child keeps = refl
found_changed f g (child c cs) keeps = elim (Option-cases (find_child f cs)) [
  | inr (d, e) ↦
      rw (e, change_child, find_child)
        (ap (behind f c) (found_changed f g cs keeps ∙ ap (mapped g) e))
  | inl e ↦ elim (Bool-cases (same_str (key_of c) f)) [
    | inl b ↦
        rw (e, b, change_child, find_child)
          (ap (behind f (g c)) e
            ∙ ap (λ x. if same_str x f then some (g c) else none) (keeps c)
            ∙ rw b refl)
    | inr b ↦ rw (e, b, change_child, find_child) (ap (behind f c) e ∙ rw b refl)
  ]
]

-- Keys that differ.
different :
    (f k : Str) (c : Config)
    → same_str f k ≡ false
    → same_str (key_of c) f ≡ true
    → same_str (key_of c) k ≡ false
different f k c h b = subst (λ x. same_str x k ≡ false) (sym (same_str_eq (key_of c) f b)) h

others_unchanged :
    (f k : Str) (g : Config → Config) (cs : Children)
    → Keeps g
    → same_str f k ≡ false
    → find_child k (change_child f g cs) ≡ find_child k cs
unfolding find_child change_child behind
others_unchanged f k g no_child keeps h = refl
others_unchanged f k g (child c cs) keeps h = elim (Option-cases (find_child f cs)) [
  | inr (d, e) ↦ rw (e, change_child) (ap (behind k c) (others_unchanged f k g cs keeps h))
  | inl e ↦ elim (Bool-cases (same_str (key_of c) f)) [
    | inl b ↦ rw (e, b, change_child) (swap (find_child k cs) (different f k c h b))
    | inr b ↦ rw (e, b, change_child) refl
  ]
]
  where
    swap : (o : Option Config) → same_str (key_of c) k ≡ false → behind k (g c) o ≡ behind k c o
    swap (some x) q = refl
    swap none q = rw (keeps c, q) refl

-- The child that `build_key_path` goes on at.
abbrev pub or_new : Str → Option Config → Config
or_new f none = config f [] no_child
or_new f (some d) = d

pub find_child-at_child :
    (f : Str) (g : Config → Config) (cs : Children)
    → Keeps g
    → find_child f (at_child f g cs) ≡ some (g (or_new f (find_child f cs)))
unfolding at_child
find_child-at_child f g cs keeps = elim (Option-cases (find_child f cs)) [
  | inr (d, e) ↦ rw (e, at_child) (found_changed f g cs keeps ∙ ap (mapped g) e)
  | inl e ↦
      rw (e, at_child)
        (find_child-add_child f (g (config f [] no_child)) cs
          ∙ ap (λ x. if same_str x f then some (g (config f [] no_child)) else find_child f cs)
              (keeps (config f [] no_child))
          ∙ rw (same_str_refl f) refl)
]

pub find_child_other :
    (f k : Str) (g : Config → Config) (cs : Children)
    → Keeps g
    → same_str f k ≡ false
    → find_child k (at_child f g cs) ≡ find_child k cs
unfolding at_child
find_child_other f k g cs keeps h = elim (Option-cases (find_child f cs)) [
  | inr (d, e) ↦ rw (e, at_child) (others_unchanged f k g cs keeps h)
  | inl e ↦
      rw (e, at_child)
        (find_child-add_child k (g (config f [] no_child)) cs
          ∙ ap (λ x. if same_str x k then some (g (config f [] no_child)) else find_child k cs)
              (keeps (config f [] no_child))
          ∙ rw h refl)
]
