-- ===== src/IpFilter/Entries.antt =====
-- The entries of an IpFilter's sets (server-5204/util/ip_filter.h): what each stands for.
use expert_spoon.Prelude.{
  ◌≤◌, ℕ, ◌-◌, ◌≡◌, refl, sym, ap, ap₂, ◌∙◌, subst, Bool, true, false, ◌&&◌, ◌⊎◌, inl, inr, none,
  some, List, [], ◌∷◌, ◌++◌, Str, if◌then◌else◌, ◌==◌, ltb, ltb→lt, length, length-append, take,
  drop, take-append-drop, length-drop, get_elem?, take-append_length, All, arith, Bool-cases,
}
use expert_spoon.SortedSet.{str_less, same_str}
use expert_spoon.SortedSet.Order.{same_str_eq}
use expert_spoon.IpFilter.{insert, upper_bound, matches_at, matches, is_full_ip, entry}

get_elem?-append_length : (p : Str) (c : ℕ) → get_elem? (p ++ c ∷ []) (length p) ≡ some c
get_elem?-append_length [] c = refl
get_elem?-append_length (x ∷ p) c = get_elem?-append_length p c

less_one : (p : Str) (c : ℕ) → length (p ++ c ∷ []) - 1 ≡ length p
less_one p c = omega (arith, length-append {0} p (c ∷ []))

matches_last :
    (p : Str) (c : ℕ) (ip : Str)
    → matches (p ++ c ∷ []) ip
      ≡ some (
          if c == b'='
          then same_str p ip
          else ltb (length p) (length ip) && same_str (take (length p) ip) p)
unfolding matches matches_at same_str
matches_last p c ip = ap (λ n. matches_at n (p ++ c ∷ []) ip) (less_one p c) ∙ at_end
  where
    at_end :
        matches_at (length p) (p ++ c ∷ []) ip
        ≡ some (
            if c == b'='
            then same_str p ip
            else ltb (length p) (length ip) && same_str (take (length p) ip) p)
    at_end =
        rw (get_elem?-append_length p c, take-append_length p (c ∷ []) (length p) refl, matches_at)
          refl

pub matches_full : (p ip : Str) → matches (p ++ b'=' ∷ []) ip ≡ some (same_str p ip)
matches_full p ip = matches_last p b'=' ip

pub matches_part :
    (p ip : Str)
    → matches (p ++ b'@' ∷ []) ip
      ≡ some (ltb (length p) (length ip) && same_str (take (length p) ip) p)
matches_part p ip = matches_last p b'@' ip

-- An address behind a prefix.
abbrev pub Starts : Str → Str → Type 0
Starts p ip = (c : ℕ) × (r : Str) × (ip ≡ p ++ c ∷ r)

-- What a prefix stands for: the address itself, if it has three dots, and the longer ones otherwise.
abbrev pub Narrow : Str → Str → Type 0
Narrow p ip = ((is_full_ip p ≡ true) × (p ≡ ip)) ⊎ ((is_full_ip p ≡ false) × Starts p ip)

behind_prefix :
    (p ip : Str)
    → (ltb (length p) (length ip) && same_str (take (length p) ip) p) ≡ true
    → Starts p ip
behind_prefix p ip h =
    let (longer, same) = both (ltb (length p) (length ip)) (same_str (take (length p) ip) p) h in
    behind (drop (length p) ip) refl
      (omega (arith, length-drop (length p) ip, ltb→lt (length p) (length ip) longer))
      (same_str_eq (take (length p) ip) p same)
  where
    both : (a b : Bool) → (a && b) ≡ true → (a ≡ true) × (b ≡ true)
    both true b h = (refl, h)
    both false b h = cc

    behind :
        (s : Str)
        → drop (length p) ip ≡ s
        → 1 ≤ length (drop (length p) ip)
        → take (length p) ip ≡ p
        → Starts p ip
    behind [] e n t = absurd (omega (arith, n, ap length e))
    behind (c ∷ r) e n t = (c, r, sym (take-append-drop (length p) ip) ∙ ap₂ (λ x y. x ++ y) t e)

-- An entry is never tested outside its characters, and hits only what it stands for.
pub matches-Narrow :
    (p ip : Str) → (b : Bool) × (matches (entry p) ip ≡ some b) × (b ≡ true → Narrow p ip)
unfolding entry
matches-Narrow p ip = elim (Bool-cases (is_full_ip p)) [
  | inl e ↦ rw e (same_str p ip, matches_full p ip, λ h. inl (refl, same_str_eq p ip h))
  | inr e ↦ rw e (
    (ltb (length p) (length ip) && same_str (take (length p) ip) p),
    matches_part p ip,
    λ h. inr (refl, behind_prefix p ip h),
  )
]

module _ (P : Str → Type 0) where
  pub All-insert : (x : Str) (m : List Str) → P x → All P m → All P (insert x m)
  unfolding insert
  All-insert x [] h a = (h, tt)
  All-insert x (y ∷ ys) h a = elim (Bool-cases (str_less x y)) [
    | inl e ↦ rw e (h, a)
    | inr e ↦ elim (Bool-cases (str_less y x)) [
      | inl k ↦ rw (e, k) (a.0, All-insert x ys h a.1)
      | inr k ↦ rw (e, k) a
    ]
  ]

  pub upper_bound-All :
      (x : Str) (m : List Str) (e : Str) → All P m → upper_bound x m ≡ some e → P e
  unfolding upper_bound
  upper_bound-All x [] e a h = absurd (not_some h)
    where
      not_some : none ≡ some e → ⊥
      not_some q = cc
  upper_bound-All x (y ∷ ys) e a h = elim (Bool-cases (str_less x y)) [
    | inl b ↦ subst P (same (rw b at h)) a.0
    | inr b ↦ upper_bound-All x ys e a.1 (rw b at h)
  ]
    where
      same : some y ≡ some e → y ≡ e
      same q = cc
