-- ===== src/IpFilter/Hidden.antt =====
-- A longer entry hides a shorter one (server-5204/util/ip_filter.h, `check_hit` looks at the next entry only).
use expert_spoon.Prelude.{
  ℕ, ◌<◌, ◌≡◌, refl, sym, ap, ◌∙◌, subst, Bool, true, false, not, ◌&&◌, ◌||◌, some, List, [], ◌∷◌,
  ◌++◌, append_assoc, Str, ◌==◌, ==_refl, ltb, lt→ltb, length, length-append, take,
  take-append_length, arith,
}
use expert_spoon.SortedSet.{str_less, same_str}
use expert_spoon.SortedSet.Order.{same_str_refl}
use expert_spoon.IpFilter.Entries.{matches_full, matches_part}
use expert_spoon.IpFilter.{
  IpFilter, new, insert, upper_bound, matches, check_hit, is_full_ip, is_any, entry, add_allow,
  add_deny, check_rest, check_pass,
}

-- Strings that part at a smaller character.
less_at : (p : Str) (c d : ℕ) (r s : Str) → c < d → str_less (p ++ c ∷ r) (p ++ d ∷ s) ≡ true
unfolding str_less
less_at [] c d r s h = rw (lt→ltb c d h) refl
less_at (x ∷ p) c d r s h = rw (==_refl x, less_at p c d r s h) (or_true (ltb x x))
  where
    or_true : (b : Bool) → (b || true) ≡ true
    or_true true = refl
    or_true false = refl

differ_at : (p : Str) (c d : ℕ) (r s : Str) → c < d → same_str (p ++ d ∷ s) (p ++ c ∷ r) ≡ false
unfolding same_str
differ_at [] c d r s h = rw (not_equal h) refl
  where
    not_equal : c < d → (d == c) ≡ false
    not_equal h = ground arith
differ_at (x ∷ p) c d r s h = rw (==_refl x, differ_at p c d r s h) refl

check_hit_first :
    (e ip : Str) (m : List Str) → str_less ip e ≡ true → check_hit (e ∷ m) ip ≡ matches e ip
unfolding check_hit upper_bound
check_hit_first e ip m h = rw (h, check_hit, upper_bound) refl

-- The entries of a prefix and of a longer address.
module _ (p : Str) (c d : ℕ) (r s : Str) where
  abbrev wide : Str
  wide = p ++ b'@' ∷ []

  abbrev narrow : Str
  narrow = (p ++ d ∷ s) ++ b'=' ∷ []

  abbrev ip : Str
  ip = p ++ c ∷ r

  inserted : d < 64 → insert narrow (wide ∷ []) ≡ narrow ∷ wide ∷ []
  unfolding insert
  inserted h = rw (append_assoc p (d ∷ s) (b'=' ∷ []), less_at p d 64 (s ++ b'=' ∷ []) [] h) refl

  wide_hits : c < 64 → check_hit (wide ∷ []) ip ≡ some true
  wide_hits h = check_hit_first wide ip [] (less_at p c 64 r [] h) ∙ matches_part p ip ∙ ap some hit
    where
      hit : (ltb (length p) (length ip) && same_str (take (length p) ip) p) ≡ true
      hit =
          rw
            (
              lt→ltb (length p) (length (p ++ c ∷ r)) (omega (arith, length-append p (c ∷ r))),
              take-append_length p (c ∷ r) (length p) refl,
            )
            (same_str_refl p)

  narrow_misses : c < d → check_hit (narrow ∷ wide ∷ []) ip ≡ some false
  narrow_misses h =
      check_hit_first narrow ip (wide ∷ []) (
        subst (λ x. str_less ip x ≡ true) (sym (append_assoc p (d ∷ s) (b'=' ∷ [])))
          (less_at p c d r (s ++ b'=' ∷ []) h))
      ∙ matches_full (p ++ d ∷ s) ip
      ∙ ap some (differ_at p c d r s h)

  entry-wide : is_full_ip p ≡ false → entry p ≡ wide
  unfolding entry
  entry-wide h = rw h refl

  entry-narrow : is_full_ip (p ++ d ∷ s) ≡ true → entry (p ++ d ∷ s) ≡ narrow
  unfolding entry
  entry-narrow h = rw h refl

-- A filter that lets all pass but what it denies.
abbrev all_but : List Str → IpFilter
all_but m = record { deny_all = false; allow_all = true; empty_ = false; deny = m; allow = [] }

all_allowed : add_allow (b'*' ∷ []) new ≡ all_but []
unfolding add_allow new is_any same_str
all_allowed = refl

one_denied :
    (q : Str) (m : List Str)
    → is_any q ≡ false
    → add_deny q (all_but m) ≡ all_but (insert (entry q) m)
unfolding add_deny
one_denied q m h = rw h refl

pass_all_but :
    (m : List Str) (ip : Str) (b : Bool)
    → check_hit m ip ≡ some b
    → check_pass (all_but m) ip ≡ some (not b)
unfolding check_pass check_rest check_hit upper_bound
pass_all_but m ip true h = rw (h, check_pass) refl
pass_all_but m ip false h = rw (h, check_pass) refl

-- Where all is allowed and a prefix denied, `check_pass` refuses an address behind it; once a longer
-- address of the prefix is denied as well, whose next character is greater, it lets the first
-- address pass.
pub check_pass_hidden :
    (p : Str) (c d : ℕ) (r s : Str)
    → c < d
    → d < 64
    → is_any p ≡ false
    → is_any (p ++ d ∷ s) ≡ false
    → is_full_ip p ≡ false
    → is_full_ip (p ++ d ∷ s) ≡ true
    → (check_pass (add_deny p (add_allow (b'*' ∷ []) new)) (p ++ c ∷ r) ≡ some false)
      × (check_pass (add_deny (p ++ d ∷ s) (add_deny p (add_allow (b'*' ∷ []) new))) (p ++ c ∷ r)
          ≡ some true)
check_pass_hidden p c d r s h k a b e f =
    let w = wide p c d r s in
    let once : add_deny p (add_allow (b'*' ∷ []) new) ≡ all_but (w ∷ []) =
      ap (add_deny p) all_allowed
      ∙ one_denied p [] a
      ∙ ap (λ x. all_but (insert x [])) (entry-wide p c d r s e)
      ∙ inserted_first w in
    let twice : add_deny (p ++ d ∷ s) (all_but (w ∷ [])) ≡ all_but (narrow p c d r s ∷ w ∷ []) =
      one_denied (p ++ d ∷ s) (w ∷ []) b
      ∙ ap (λ x. all_but (insert x (w ∷ []))) (entry-narrow p c d r s f)
      ∙ ap all_but (inserted p c d r s k) in
    (
      ap (λ x. check_pass x (p ++ c ∷ r)) once
          ∙ pass_all_but (w ∷ []) (p ++ c ∷ r) true (wide_hits p c d r s (omega (arith, h, k))),
      ap (λ x. check_pass (add_deny (p ++ d ∷ s) x) (p ++ c ∷ r)) once
          ∙ ap (λ x. check_pass x (p ++ c ∷ r)) twice
          ∙ pass_all_but (narrow p c d r s ∷ w ∷ []) (p ++ c ∷ r) false (narrow_misses p c d r s h),
    )
  where
    inserted_first : (x : Str) → all_but (insert x []) ≡ all_but (x ∷ [])
    inserted_first x = unfold insert in refl
