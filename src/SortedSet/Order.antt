-- ===== src/SortedSet/Order.antt =====
-- The order of the items (server-5204/util/sorted_set.h, Item::operator<).
use expert_spoon.Prelude.{
  ◌≡◌, refl, ap₂, Bool, true, false, ◌&&◌, [], ◌∷◌, Str, arith, ◌==◌, ==→eq, ==_refl,
}
use expert_spoon.SortedSet.{str_less, same_str, Item, item_less}

pub same_str_refl : (k : Str) → same_str k k ≡ true
unfolding same_str
same_str_refl [] = refl
same_str_refl (x ∷ k) = rw ==_refl (same_str_refl k)

pub same_str_eq : (k j : Str) → same_str k j ≡ true → k ≡ j
unfolding same_str
same_str_eq [] [] h = refl
same_str_eq [] (y ∷ ys) h = cc
same_str_eq (x ∷ xs) [] h = cc
same_str_eq (x ∷ xs) (y ∷ ys) h =
    let (e, r) = both (x == y) (same_str xs ys) h in
    ap₂ (λ a b. a ∷ b) (==→eq x y e) (same_str_eq xs ys r)
  where
    both : (a b : Bool) → (a && b) ≡ true → (a ≡ true) × (b ≡ true)
    both true b h = (refl, h)
    both false b h = cc

pub str_less_trans : (a b c : Str) → str_less a b ≡ true → str_less b c ≡ true → str_less a c ≡ true
unfolding str_less
str_less_trans [] [] c h k = k
str_less_trans [] (y ∷ ys) [] h k = k
str_less_trans [] (y ∷ ys) (z ∷ zs) h k = refl
str_less_trans (x ∷ xs) [] c h k = cc
str_less_trans (x ∷ xs) (y ∷ ys) [] h k = k
str_less_trans (x ∷ xs) (y ∷ ys) (z ∷ zs) h k = ground (arith, str_less_trans xs ys zs)

pub str_less_total : (a b : Str) → str_less a b ≡ false → str_less b a ≡ false → a ≡ b
unfolding str_less
str_less_total [] [] h k = refl
str_less_total [] (y ∷ ys) h k = cc
str_less_total (x ∷ xs) [] h k = cc
str_less_total (x ∷ xs) (y ∷ ys) h k =
    let (e, p, q) = equal_heads in ap₂ (λ a b. a ∷ b) e (str_less_total xs ys p q)
  where
    equal_heads : (x ≡ y) × (str_less xs ys ≡ false) × (str_less ys xs ≡ false)
    equal_heads = (ground arith, ground arith, ground arith)

pub item_less_trans :
    (a b c : Item) → item_less a b ≡ true → item_less b c ≡ true → item_less a c ≡ true
unfolding item_less
item_less_trans a b c h k = ground (arith, str_less_trans a.key b.key c.key)

-- Items that neither is before the other have one key.
pub same_key_of : (a b : Item) → item_less a b ≡ false → item_less b a ≡ false → a.key ≡ b.key
unfolding item_less
same_key_of a b h k = str_less_total a.key b.key (ground arith) (ground arith)
