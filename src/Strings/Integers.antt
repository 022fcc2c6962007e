-- ===== src/Strings/Integers.antt =====
-- big_endian and bitcount (server-5204/util/strings.h).
use expert_spoon.Prelude.{
  ℕ, zero, suc, ◌+◌, ◌*◌, ◌/◌, ◌%◌, ◌^◌, ◌≤◌, ◌<◌, ◌≡◌, sym, ap, ap₂, ◌∙◌, [], ◌∷◌, Str, arith,
  length,
}
use expert_spoon.Strings.{big_endian16, big_endian32, big_endian64, bits, bitcount}

pub big_endian16-twice : (v : ℕ) → v < 2 ^ 16 → big_endian16 (big_endian16 v) ≡ v
unfolding big_endian16
big_endian16-twice v h = omega arith

-- Four bytes, the high one first.
joined : ℕ → ℕ → ℕ → ℕ → ℕ
joined a b c d = a * 2 ^ 24 + b * 2 ^ 16 + c * 2 ^ 8 + d

big_endian32-joined :
    (a b c d : ℕ)
    → a < 2 ^ 8
    → b < 2 ^ 8
    → c < 2 ^ 8
    → d < 2 ^ 8
    → big_endian32 (joined a b c d) ≡ joined d c b a
unfolding big_endian32 joined
big_endian32-joined a b c d ha hb hc hd = omega arith

bytes_of :
    (v : ℕ)
    → v < 2 ^ 32
    → v ≡ joined (v / 2 ^ 24) (v / 2 ^ 16 % 2 ^ 8) (v / 2 ^ 8 % 2 ^ 8) (v % 2 ^ 8)
unfolding joined
bytes_of v h = omega arith

pub big_endian32-twice : (v : ℕ) → v < 2 ^ 32 → big_endian32 (big_endian32 v) ≡ v
big_endian32-twice v h =
    let a = v / 2 ^ 24 in
    let b = v / 2 ^ 16 % 2 ^ 8 in
    let c = v / 2 ^ 8 % 2 ^ 8 in
    let d = v % 2 ^ 8 in
    let ha : a < 2 ^ 8 = omega arith in
    let hb : b < 2 ^ 8 = omega arith in
    let hc : c < 2 ^ 8 = omega arith in
    let hd : d < 2 ^ 8 = omega arith in
    ap (λ x. big_endian32 (big_endian32 x)) (bytes_of v h)
    ∙ ap big_endian32 (big_endian32-joined a b c d ha hb hc hd)
    ∙ big_endian32-joined d c b a hd hc hb ha
    ∙ sym (bytes_of v h)

big_endian32-small : (v : ℕ) → v < 2 ^ 32 → big_endian32 v < 2 ^ 32
unfolding big_endian32
big_endian32-small v h = omega arith

big_endian64-halves :
    (x y : ℕ)
    → x < 2 ^ 32
    → y < 2 ^ 32
    → big_endian64 (x * 2 ^ 32 + y) ≡ big_endian32 y * 2 ^ 32 + big_endian32 x
unfolding big_endian64
big_endian64-halves x y hx hy =
    let high : (x * 2 ^ 32 + y) / 2 ^ 32 ≡ x = omega arith in
    let low : (x * 2 ^ 32 + y) % 2 ^ 32 ≡ y = omega arith in
    ap₂ (λ h l. big_endian32 h + (big_endian32 l * 2 ^ 32) % 2 ^ 64) high low
    ∙ omega (arith, big_endian32-small y hy, big_endian32-small x hx)

-- `big_endian` on 64 bits undoes itself.
pub big_endian64-twice : (v : ℕ) → v < 2 ^ 64 → big_endian64 (big_endian64 v) ≡ v
big_endian64-twice v h =
    let x = v / 2 ^ 32 in
    let y = v % 2 ^ 32 in
    let hx : x < 2 ^ 32 = omega arith in
    let hy : y < 2 ^ 32 = omega arith in
    let halves : v ≡ x * 2 ^ 32 + y = omega arith in
    ap (λ z. big_endian64 (big_endian64 z)) halves
    ∙ ap big_endian64 (big_endian64-halves x y hx hy)
    ∙ big_endian64-halves (big_endian32 y) (big_endian32 x) (big_endian32-small y hy)
        (big_endian32-small x hx)
    ∙ ap₂ (λ p q. p * 2 ^ 32 + q) (big_endian32-twice x hx) (big_endian32-twice y hy)
    ∙ sym halves

bits_le : (fuel c : ℕ) → bits fuel c ≤ fuel
unfolding bits
bits_le zero c = omega arith
bits_le (suc fuel) c = ground (arith, bits_le fuel (c / 2))

pub bitcount-bound : (s : Str) → bitcount s ≤ 8 * length s
unfolding bitcount
bitcount-bound [] = omega arith
bitcount-bound (c ∷ s) = omega (arith, bits_le 8 c, bitcount-bound s)
