-- ===== src/IpFilter.antt =====
-- IpFilter (server-5204/util/ip_filter.h). A `std::set` of strings is the list of its elements in order. An entry
-- is shorter than 2^31 characters, so that its last place is an `int`.
pub mod Entries
pub mod Allowed
pub mod Hidden
use expert_spoon.Prelude.{
  ℕ, zero, suc, ◌+◌, ◌-◌, Bool, true, false, ◌&&◌, ◌||◌, Option, none, some, List, [], ◌∷◌, ◌++◌,
  Str, if◌then◌else◌, ◌==◌, ltb, length, take, get_elem?,
}
use expert_spoon.SortedSet.{str_less, same_str}

pub record IpFilter : Type 0 where
  pub deny_all : Bool
  pub allow_all : Bool
  pub empty_ : Bool
  pub deny : List Str
  pub allow : List Str

unfoldable pub new : IpFilter
new = record { deny_all = false; allow_all = false; empty_ = true; deny = []; allow = [] }

unfoldable pub empty : IpFilter → Bool
empty f = f.empty_

-- set::insert and set::upper_bound
unfoldable pub insert : Str → List Str → List Str
insert x [] = x ∷ []
insert x (y ∷ ys) =
    let rest = insert x ys in
    if str_less x y then x ∷ y ∷ ys else if str_less y x then y ∷ rest else y ∷ ys

unfoldable pub upper_bound : Str → List Str → Option Str
upper_bound x [] = none
upper_bound x (y ∷ ys) = let rest = upper_bound x ys in if str_less x y then some y else rest

-- The test of one entry with its last character at `len`; `none` where that is before its first.
unfoldable pub matches_at : ℕ → Str → Str → Option Bool
matches_at len prefix ip = elim (get_elem? prefix len) [
  | none ↦ none
  | some c ↦ some (
      if c == b'='
      then same_str (take len prefix) ip
      else ltb len (length ip) && same_str (take len ip) (take len prefix))
]

unfoldable pub matches : Str → Str → Option Bool
matches prefix ip = matches_at (length prefix - 1) prefix ip

unfoldable pub check_hit : List Str → Str → Option Bool
check_hit m ip = elim (upper_bound ip m) [ none ↦ some false | some prefix ↦ matches prefix ip ]

unfoldable pub dots : Str → ℕ
dots [] = 0
dots (c ∷ s) = if c == b'.' then suc (dots s) else dots s

unfoldable pub is_full_ip : Str → Bool
is_full_ip ip_prefix = dots ip_prefix == 3

-- ip_prefix == "all" || ip_prefix == "*"
unfoldable pub is_any : Str → Bool
is_any ip_prefix = same_str ip_prefix (b'a' ∷ b'l' ∷ b'l' ∷ []) || same_str ip_prefix (b'*' ∷ [])

-- '@' and '=' are greater than any char in ip
unfoldable pub entry : Str → Str
entry ip_prefix = ip_prefix ++ (if is_full_ip ip_prefix then b'=' else b'@') ∷ []

unfoldable pub add_allow : Str → IpFilter → IpFilter
add_allow ip_prefix f =
    if is_any ip_prefix
    then record f { allow_all = true; empty_ = false }
    else record f { allow = insert (entry ip_prefix) f.allow; empty_ = false }

unfoldable pub add_deny : Str → IpFilter → IpFilter
add_deny ip_prefix f =
    if is_any ip_prefix
    then record f { deny_all = true; empty_ = false }
    else record f { deny = insert (entry ip_prefix) f.deny; empty_ = false }

-- check_pass behind the two sets
unfoldable pub check_rest : IpFilter → Bool
check_rest f = if f.deny_all then false else f.allow_all

unfoldable pub check_pass : IpFilter → Str → Option Bool
check_pass f ip = if f.empty_ then some true else elim (check_hit f.allow ip) [
  | none ↦ none
  | some true ↦ some true
  | some false ↦ elim (check_hit f.deny ip) [
    | none ↦ none
    | some true ↦ some false
    | some false ↦ some (check_rest f)
  ]
]
