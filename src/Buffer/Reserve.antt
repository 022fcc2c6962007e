-- ===== src/Buffer/Reserve.antt =====
-- Making room (bytes.cpp, `Buffer::grow` and the loops around it): the loop ends within its rounds,
-- and what it ends in.
use expert_spoon.Prelude.{
  ℕ, zero, suc, ◌*◌, ◌^◌, ◌≤◌, ◌<◌, ◌≡◌, refl, sym, ap, subst, ◌∙◌, true, false, inl, inr, none,
  some, ◌++◌, arith, ltb, ltb→lt, ltb→le, Bool-cases, Option-cases, length, drop, int_limit,
  take-append-drop, take-drop-append,
}
use native.Mathlib.Nat.{pow-suc, mul_comm, mul-le-mul_right}
use expert_spoon.Buffer.{
  Buffer, Allocator, contents, space, grown, int_to_size, grow, reserve, reserve_rounds, Reserved,
  room, failed, spent,
}
use expert_spoon.Buffer.Window.{IsValid}

-- The bounds of the new size, computed with wrap-around.
pub grown_small : (t : ℕ) → t < 2 ^ 30 → (t < grown t) × (8192 ≤ grown t) × (grown t < int_limit)
unfolding grown
grown_small t h = ground arith

pub grown_doubles : (t : ℕ) → 8192 ≤ t → t < 2 ^ 30 → 2 * t ≤ grown t
unfolding grown
grown_doubles t h k = ground arith

pub grown_large : (t : ℕ) → 2 ^ 30 ≤ t → t < int_limit → 2 ^ 63 ≤ int_to_size (grown t)
unfolding grown int_to_size
grown_large t h k = ground arith

pub int_to_size_small : (n : ℕ) → n < int_limit → int_to_size n ≡ n
unfolding int_to_size
int_to_size_small n h = ground arith

module _ (a : Allocator) where
  grow-none : (b : Buffer) → b.total_ < int_limit → 2 ^ 30 ≤ b.total_ → grow a b ≡ none
  unfolding grow
  grow-none b h k =
      rw (a.realloc_limit b.memory (int_to_size (grown b.total_)) (grown_large b.total_ k h), grow)
        refl

  -- A successful `grow`.
  pub record Grows (b c : Buffer) : Type 0 where
    pub was_small : b.total_ < 2 ^ 30
    pub total : c.total_ ≡ grown b.total_
    pub moved : a.realloc b.memory (grown b.total_) ≡ some c.memory
    pub data_kept : c.data_ ≡ b.data_
    pub size_kept : c.size_ ≡ b.size_

  grow_parts :
      (b c : Buffer)
      → grow a b ≡ some c
      → (c.total_ ≡ grown b.total_)
        × (a.realloc b.memory (int_to_size (grown b.total_)) ≡ some c.memory)
        × (c.data_ ≡ b.data_)
        × (c.size_ ≡ b.size_)
  unfolding grow
  grow_parts b c e = ground arith

  grow-small : (b c : Buffer) → b.total_ < int_limit → grow a b ≡ some c → b.total_ < 2 ^ 30
  grow-small b c v e = elim (Bool-cases (ltb b.total_ (2 ^ 30))) [
    | inl l ↦ ltb→lt _ _ l
    | inr g ↦ absurd (none_some (sym (grow-none b v (ltb→le _ _ g)) ∙ e))
  ]
    where
      none_some : none ≡ some c → ⊥
      none_some p = cc

  pub grow-Grows : (b c : Buffer) → IsValid b → grow a b ≡ some c → Grows b c
  grow-Grows b c v e =
      let (t, m, d, s) = grow_parts b c e in
      let small : b.total_ < 2 ^ 30 = grow-small b c v.small e in
      let fits : grown b.total_ < int_limit = (grown_small b.total_ small).2 in
      record {
        was_small = small;
        total = t;
        moved = rw (int_to_size_small (grown b.total_) fits) at m;
        data_kept = d;
        size_kept = s;
      }

  module _ (b c : Buffer) (v : IsValid b) (g : Grows b c) where
    grows-le : length b.memory ≤ grown b.total_
    grows-le = omega (arith, (grown_small b.total_ g.was_small).0, v.allocated)

    pub Grows-IsValid : IsValid c
    Grows-IsValid =
        let (more, _, fits) = grown_small b.total_ g.was_small in
        record {
          fits = omega (arith, g.total, g.data_kept, g.size_kept, v.fits);
          allocated = a.length-realloc b.memory (grown b.total_) c.memory g.moved ∙ sym g.total;
          small = omega (arith, g.total);
        }

    pub contents-Grows : contents c ≡ contents b
    contents-Grows =
        let kept = a.take-realloc b.memory (grown b.total_) c.memory g.moved grows-le in
        let tail = drop (length b.memory) c.memory in
        let whole : b.memory ++ tail ≡ c.memory =
          ap (λ m. m ++ tail) (sym kept) ∙ take-append-drop (length b.memory) c.memory in
        rw (g.data_kept, g.size_kept, ← whole)
          (take-drop-append b.data_ b.size_ b.memory tail (omega (arith, v.fits, v.allocated)))

-- What a reservation of `size` bytes in `b` promises of its outcome.
abbrev pub Reserves : ℕ → Buffer → Reserved → Type 0
Reserves size b (room c) = IsValid c × (size ≤ space c) × (contents c ≡ contents b)
Reserves size b (failed c) = IsValid c × (contents c ≡ contents b)
Reserves size b spent = ⊥

Reserves-trans :
    (size : ℕ) (b c : Buffer) (r : Reserved)
    → contents c ≡ contents b
    → Reserves size c r
    → Reserves size b r
Reserves-trans size b c (room d) e (v, h, k) = (v, h, k ∙ e)
Reserves-trans size b c (failed d) e (v, k) = (v, k ∙ e)
Reserves-trans size b c spent e h = h

pow_twice : (n t : ℕ) → t * 2 ^ suc n ≡ t * (2 * 2 ^ n)
pow_twice n t = ap (λ p. t * p) (pow-suc 2 n ∙ mul_comm (2 ^ n) 2)

twice_power : (t u p : ℕ) → 2 ^ 31 ≤ t * (2 * p) → 2 * t ≤ u → 2 ^ 31 ≤ u * p
twice_power t u p h k = omega (arith, mul-le-mul_right p k)

module _ (a : Allocator) (size : ℕ) where
  pub reserve_enough :
      (fuel : ℕ) (b : Buffer) → ltb (space b) size ≡ false → reserve a (suc fuel) size b ≡ room b
  unfolding reserve
  reserve_enough fuel b e = rw (e, reserve) refl

  reserve_fails :
      (fuel : ℕ) (b : Buffer)
      → ltb (space b) size ≡ true
      → grow a b ≡ none
      → reserve a (suc fuel) size b ≡ failed b
  unfolding reserve
  reserve_fails fuel b e g = ground arith

  reserve_again :
      (fuel : ℕ) (b c : Buffer)
      → ltb (space b) size ≡ true
      → grow a b ≡ some c
      → reserve a (suc fuel) size b ≡ reserve a fuel size c
  unfolding reserve
  reserve_again fuel b c e g = ground arith

  reserve_round :
      (fuel : ℕ) (b : Buffer)
      → IsValid b
      → ((c : Buffer) → Grows a b c → Reserves size c (reserve a fuel size c))
      → Reserves size b (reserve a (suc fuel) size b)
  reserve_round fuel b v next = elim (Bool-cases (ltb (space b) size)) [
    | inl more ↦ elim (Option-cases (grow a b)) [
      | inl e ↦ subst (Reserves size b) (sym (reserve_fails fuel b more e)) (v, refl)
      | inr (c, e) ↦
          let g = grow-Grows a b c v e in
          subst (Reserves size b) (sym (reserve_again fuel b c more e))
            (Reserves-trans size b c _ (contents-Grows a b c v g) (next c g))
    ]
    | inr enough ↦
        subst (Reserves size b) (sym (reserve_enough fuel b enough)) (v, ltb→le _ _ enough, refl)
  ]

  reserve_loop :
      (fuel : ℕ) (b : Buffer)
      → IsValid b
      → 8192 ≤ b.total_
      → 2 ^ 31 ≤ b.total_ * 2 ^ fuel
      → Reserves size b (reserve a fuel size b)
  reserve_loop zero b v h k = absurd (omega (arith, v.small))
  reserve_loop (suc fuel) b v h k = reserve_round fuel b v λ c g.
      let doubled : 2 * b.total_ ≤ c.total_ =
        omega (arith, g.total, grown_doubles b.total_ h g.was_small) in
      reserve_loop fuel c (Grows-IsValid a b c v g) (omega (arith, h)) (
        twice_power b.total_ c.total_ (2 ^ fuel) (omega (arith, k, pow_twice fuel b.total_))
          doubled)

  -- Whatever the heap does, the loop that makes room in a valid buffer ends within its 19 rounds:
  -- with room for the size asked, or with the heap's refusal; either way the buffer is valid and its
  -- contents are kept.
  pub reserve-Reserves :
      (b : Buffer) → IsValid b → Reserves size b (reserve a reserve_rounds size b)
  reserve-Reserves b v = reserve_round 18 b v λ c g.
      let large : 8192 ≤ c.total_ = omega (arith, g.total, (grown_small b.total_ g.was_small).1) in
      reserve_loop 18 c (Grows-IsValid a b c v g) large (omega arith)
