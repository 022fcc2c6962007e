-- ===== src/IpFilter/Allowed.antt =====
-- Which addresses an IpFilter lets pass (server-5204/util/ip_filter.h).
use expert_spoon.Prelude.{
  ◌≡◌, refl, ap, ◌∙◌, Bool, true, false, ◌⊎◌, inl, inr, Option, none, some, List, [], ◌∷◌, Str,
  if◌then◌else◌, All, Bool-cases, Option-cases,
}
use expert_spoon.IpFilter.Entries.{Narrow, matches-Narrow, All-insert, upper_bound-All}
use expert_spoon.IpFilter.{
  IpFilter, new, upper_bound, matches, check_hit, is_any, entry, add_allow, add_deny, check_rest,
  check_pass,
}

-- The calls that made a filter, the last first.
pub data Rule : Type 0 where
  allowed denied : Str → Rule

unfoldable pub filter_of : List Rule → IpFilter
filter_of [] = new
filter_of (allowed p ∷ rs) = add_allow p (filter_of rs)
filter_of (denied p ∷ rs) = add_deny p (filter_of rs)

-- Some call that allows covers the address.
abbrev pub Allowed : Str → List Rule → Type 0
Allowed ip [] = ⊥
Allowed ip (allowed p ∷ rs) = ((is_any p ≡ true) ⊎ Narrow p ip) ⊎ Allowed ip rs
Allowed ip (denied p ∷ rs) = Allowed ip rs

abbrev EntryFor : List Rule → Str → Type 0
EntryFor rs e = (p : Str) × (e ≡ entry p) × ((ip : Str) → Narrow p ip → Allowed ip rs)

abbrev IsEntry : Str → Type 0
IsEntry e = (p : Str) × (e ≡ entry p)

record Sound (rs : List Rule) (f : IpFilter) : Type 0 where
  no_rules : f.empty_ ≡ true → rs ≡ []
  all_allowed : f.allow_all ≡ true → (ip : Str) → Allowed ip rs
  allow_entries : All (EntryFor rs) f.allow
  deny_entries : All IsEntry f.deny

map_All : {P Q : Str → Type 0} (m : List Str) → ((e : Str) → P e → Q e) → All P m → All Q m
map_All [] g a = tt
map_All (e ∷ m) g a = (g e a.0, map_All m g a.1)

no_rule : (rs : List Rule) (r : Rule) → false ≡ true → r ∷ rs ≡ []
no_rule rs r h = cc

allowed-Sound :
    (p : Str) (rs : List Rule) (f : IpFilter) → Sound rs f → Sound (allowed p ∷ rs) (add_allow p f)
unfolding add_allow
allowed-Sound p rs f s =
    let wider : All (EntryFor (allowed p ∷ rs)) f.allow =
      map_All f.allow (λ e h. (h.0, h.1, λ ip n. inr (h.2 ip n))) s.allow_entries in
    elim (Bool-cases (is_any p)) [
      | inl b ↦ rw b (record {
        no_rules = no_rule rs (allowed p);
        all_allowed = λ _ ip. inl (inl b);
        allow_entries = wider;
        deny_entries = s.deny_entries;
      })
      | inr b ↦ rw b (record {
        no_rules = no_rule rs (allowed p);
        all_allowed = λ h ip. inr (s.all_allowed h ip);
        allow_entries =
            All-insert (EntryFor (allowed p ∷ rs)) (entry p) f.allow (p, refl, λ ip n. inl (inr n))
              wider;
        deny_entries = s.deny_entries;
      })
    ]

denied-Sound :
    (p : Str) (rs : List Rule) (f : IpFilter) → Sound rs f → Sound (denied p ∷ rs) (add_deny p f)
unfolding add_deny
denied-Sound p rs f s =
    let same : All (EntryFor (denied p ∷ rs)) f.allow =
      map_All f.allow (λ e h. (h.0, h.1, h.2)) s.allow_entries in
    elim (Bool-cases (is_any p)) [
      | inl b ↦ rw b (record {
        no_rules = no_rule rs (denied p);
        all_allowed = s.all_allowed;
        allow_entries = same;
        deny_entries = s.deny_entries;
      })
      | inr b ↦ rw b (record {
        no_rules = no_rule rs (denied p);
        all_allowed = s.all_allowed;
        allow_entries = same;
        deny_entries = All-insert IsEntry (entry p) f.deny (p, refl) s.deny_entries;
      })
    ]

filter_of-Sound : (rs : List Rule) → Sound rs (filter_of rs)
unfolding filter_of new
filter_of-Sound [] = record {
  no_rules = λ _. refl;
  all_allowed = λ h. absurd (false_true h);
  allow_entries = tt;
  deny_entries = tt;
}
  where
    false_true : false ≡ true → ⊥
    false_true h = cc
filter_of-Sound (allowed p ∷ rs) = allowed-Sound p rs (filter_of rs) (filter_of-Sound rs)
filter_of-Sound (denied p ∷ rs) = denied-Sound p rs (filter_of rs) (filter_of-Sound rs)

-- What `check_hit` answers on a set of entries, of which a hit gives `Q`.
abbrev Hits : Type 0 → Option Bool → Type 0
Hits Q o = (b : Bool) × (o ≡ some b) × (b ≡ true → Q)

check_hit-Hits :
    (P : Str → Type 0) (Q : Type 0) (m : List Str) (ip : Str)
    → ((e : Str) → P e → (p : Str) × (e ≡ entry p) × (Narrow p ip → Q))
    → All P m
    → Hits Q (check_hit m ip)
unfolding check_hit
check_hit-Hits P Q m ip g a = elim (Option-cases (upper_bound ip m)) [
  | inl e ↦ rw (e, check_hit) (false, refl, λ t. absurd (false_true t))
  | inr (x, e) ↦
      let (p, q, n) = g x (upper_bound-All P ip m x a e) in
      let (b, r, w) = matches-Narrow p ip in
      rw (e, check_hit) (b, ap (λ y. matches y ip) q ∙ r, λ t. n (w t))
]
  where
    false_true : false ≡ true → ⊥
    false_true h = cc

check_rest-true : (f : IpFilter) → check_rest f ≡ true → f.allow_all ≡ true
unfolding check_rest
check_rest-true f h = elim (Bool-cases f.deny_all) [
  | inl e ↦ absurd (false_true (rw e at h))
  | inr e ↦ rw e at h
]
  where
    false_true : false ≡ true → ⊥
    false_true h = cc

Passes : List Rule → Str → Type 0
Passes rs ip =
    (b : Bool) × (check_pass (filter_of rs) ip ≡ some b) × (b ≡ true → (rs ≡ []) ⊎ Allowed ip rs)

-- `check_pass` on what its parts come to.
abbrev answer : Bool → Option Bool → Option Bool → Bool → Option Bool
answer empty allow deny rest = if empty then some true else elim allow [
  | none ↦ none
  | some true ↦ some true
  | some false ↦ elim deny [ none ↦ none | some true ↦ some false | some false ↦ some rest ]
]

passes :
    (rs : List Rule) (ip : Str) (b d : Bool)
    → (filter_of rs).empty_ ≡ false
    → check_hit (filter_of rs).allow ip ≡ some b
    → check_hit (filter_of rs).deny ip ≡ some d
    → (b ≡ true → Allowed ip rs)
    → (check_rest (filter_of rs) ≡ true → Allowed ip rs)
    → Passes rs ip
unfolding check_pass Passes
passes rs ip true d e h k q a = (true, rw (e, h, check_pass) refl, λ t. inr (q t))
passes rs ip false true e h k q a = (false, rw (e, h, k, check_pass) refl, λ t. inr (q t))
passes rs ip false false e h k q a =
    let f = filter_of rs in
    (
      check_rest f,
      ap (λ x. answer x (check_hit f.allow ip) (check_hit f.deny ip) (check_rest f)) e
          ∙ ap (λ x. answer false x (check_hit f.deny ip) (check_rest f)) h
          ∙ ap (λ x. answer false (some false) x (check_rest f)) k,
      λ t. inr (a t),
    )

-- `check_pass` on a filter made by any calls of `add_allow` and `add_deny` never reads before an
-- entry's first character, and where it lets an address pass, there are no rules, or an allow rule
-- covers the address: "all" or "*", the address itself with its three dots, or a prefix with other
-- than three dots and more of the address behind it.
pub check_pass-Allowed :
    (rs : List Rule) (ip : Str)
    → (b : Bool) × (check_pass (filter_of rs) ip ≡ some b) × (b ≡ true → (rs ≡ []) ⊎ Allowed ip rs)
unfolding check_pass Passes
check_pass-Allowed rs ip =
    let f = filter_of rs in
    let s = filter_of-Sound rs in
    elim (Bool-cases f.empty_) [
      | inl e ↦ rw (e, check_pass) (true, refl, λ _. inl (s.no_rules e))
      | inr e ↦
          let (b, h, q) =
            check_hit-Hits (EntryFor rs) (Allowed ip rs) f.allow ip (λ x k. (k.0, k.1, k.2 ip))
              s.allow_entries in
          let (d, k, u) =
            check_hit-Hits IsEntry Unit f.deny ip (λ x w. (w.0, w.1, λ _. tt)) s.deny_entries in
          passes rs ip b d e h k q (λ t. s.all_allowed (check_rest-true f t) ip)
    ]
