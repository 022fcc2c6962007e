-- ===== src/Tests/Filters.antt =====
-- A filter that lets all pass but the addresses that begin with "1.2.".
use expert_spoon.Prelude.{◌≡◌, ◌⊎◌, arith, refl, true, false, Bool, some, List, [], ◌∷◌, ◌++◌, Str}
use expert_spoon.SortedSet.{same_str}
use expert_spoon.IpFilter.{new, add_allow, add_deny, check_pass, is_any, is_full_ip, dots}
use expert_spoon.IpFilter.Allowed.{Rule, allowed, denied, filter_of, Allowed, check_pass-Allowed}
use expert_spoon.IpFilter.Hidden.{check_pass_hidden}

abbrev net : Str
net = b'1' ∷ b'.' ∷ b'2' ∷ b'.' ∷ []

abbrev rules : List Rule
rules = denied net ∷ allowed (b'*' ∷ []) ∷ []

check_pass-Allowed_example :
    (b : Bool) × (check_pass (filter_of rules) (b'1' ∷ b'.' ∷ b'3' ∷ []) ≡ some b)
    × (b ≡ true → (rules ≡ []) ⊎ Allowed (b'1' ∷ b'.' ∷ b'3' ∷ []) rules)
check_pass-Allowed_example = check_pass-Allowed rules (b'1' ∷ b'.' ∷ b'3' ∷ [])

net_runs : is_full_ip net ≡ false
unfolding is_full_ip dots
net_runs = refl

-- "1.2.5.6", and the address "1.2.3.4".
full_runs : is_full_ip (net ++ b'5' ∷ b'.' ∷ b'6' ∷ []) ≡ true
unfolding is_full_ip dots
full_runs = refl

net_named : is_any net ≡ false
unfolding is_any same_str
net_named = refl

full_named : is_any (net ++ b'5' ∷ b'.' ∷ b'6' ∷ []) ≡ false
unfolding is_any same_str
full_named = refl

check_pass_hidden_example :
    (check_pass (add_deny net (add_allow (b'*' ∷ []) new)) (net ++ b'3' ∷ b'.' ∷ b'4' ∷ [])
      ≡ some false)
    × (check_pass
          (add_deny (net ++ b'5' ∷ b'.' ∷ b'6' ∷ []) (add_deny net (add_allow (b'*' ∷ []) new)))
          (net ++ b'3' ∷ b'.' ∷ b'4' ∷ [])
        ≡ some true)
check_pass_hidden_example =
    check_pass_hidden net b'3' b'5' (b'.' ∷ b'4' ∷ []) (b'.' ∷ b'6' ∷ []) (omega arith)
      (omega arith) net_named full_named net_runs full_runs
