-- ===== src/Prelude/Decimal.antt =====
-- `snprintf("%d")` on a number that is not negative, and `atoi` on text that begins with a digit,
-- as server-5204/util/bytes.cpp and link.cpp use them.
use Prim.Native.Nat.{ℕ, zero, suc, ◌+◌, ◌-◌, ◌*◌, ◌/◌, ◌%◌, ◌^◌, ◌≤◌, ◌<◌}
use mathlib.Core.Path.{◌≡◌, refl, ◌∙◌}
use mathlib.Core.Logic.{inl, inr}
use mathlib.Core.Bool.{Bool, true, false, ◌&&◌}
use mathlib.Core.Option.{Option, none, some}
use mathlib.Core.List.{List, [], ◌∷◌}
use native.Mathlib.Omega.{arith}
use native.Mathlib.Nat.{pow-suc}
use expert_spoon.Prelude.Tests.{ltb, leb, ◌==◌, if◌then◌else◌, Bool-cases, ==→eq}
use expert_spoon.Prelude.Lists.{length}

abbrev pub is_digit : ℕ → Bool
is_digit c = leb b'0' c && leb c b'9'

-- The digits of `n` before `out`; the fuel is the number of rounds that may be made.
pub digits : ℕ → ℕ → List ℕ → List ℕ
digits zero n out = out
digits (suc fuel) n out =
    let more = digits fuel (n / 10) ((b'0' + n % 10) ∷ out) in if n == 0 then out else more

unfoldable pub decimal : ℕ → List ℕ
unfolding digits
decimal n = if n == 0 then b'0' ∷ [] else digits n n []

-- The number that the digits at the front spell behind `n`.
unfoldable pub scan : List ℕ → ℕ → ℕ
scan [] n = n
scan (c ∷ s) n = if is_digit c then scan s (n * 10 + (c - b'0')) else n

-- `(int)strtol(s)`: the low 32 bits, and `none` where they stand for a negative number.
unfoldable pub atoi : List ℕ → Option ℕ
unfolding scan
atoi s = let v = scan s 0 % 2 ^ 32 in if ltb v (2 ^ 31) then some v else none

abbrev pub AllDigits : List ℕ → Type 0
AllDigits [] = Unit
AllDigits (c ∷ s) = (is_digit c ≡ true) × AllDigits s

-- The last digit of `n` is a digit.
is_digit_last : (n : ℕ) → is_digit (b'0' + n % 10) ≡ true
is_digit_last n = ground arith

digits-AllDigits : (fuel n : ℕ) (out : List ℕ) → AllDigits out → AllDigits (digits fuel n out)
unfolding digits
digits-AllDigits zero n out h = h
digits-AllDigits (suc fuel) n out h = elim (Bool-cases (n == 0)) [
  | inl e ↦ rw e h
  | inr e ↦ rw e (digits-AllDigits fuel (n / 10) ((b'0' + n % 10) ∷ out) (is_digit_last n, h))
]

pub decimal-AllDigits : (n : ℕ) → AllDigits (decimal n)
unfolding decimal
decimal-AllDigits n = elim (Bool-cases (n == 0)) [
  | inl e ↦ rw e (refl, tt)
  | inr e ↦ rw e (digits-AllDigits n n [] tt)
]

-- Reading the last digit of `n` behind the others gives `n`.
scan_last : (n : ℕ) (out : List ℕ) → scan ((b'0' + n % 10) ∷ out) (n / 10) ≡ scan out n
unfolding scan
scan_last n out =
    let e : (n / 10) * 10 + (b'0' + n % 10 - b'0') ≡ n = omega arith in rw (is_digit_last n, e)

scan-digits : (fuel n : ℕ) (out : List ℕ) → n ≤ fuel → scan (digits fuel n out) 0 ≡ scan out n
unfolding digits
scan-digits zero n out h = let e : n ≡ 0 = omega arith in rw e
scan-digits (suc fuel) n out h = elim (Bool-cases (n == 0)) [
  | inl e ↦ ground arith
  | inr e ↦
      rw e (scan-digits fuel (n / 10) ((b'0' + n % 10) ∷ out) (ground arith) ∙ scan_last n out)
]

scan_stop : (c : ℕ) (rest : List ℕ) (n : ℕ) → is_digit c ≡ false → scan (c ∷ rest) n ≡ n
unfolding scan
scan_stop c rest n h = rw h

pub scan-decimal : (n : ℕ) → scan (decimal n) 0 ≡ n
unfolding decimal scan
scan-decimal n = elim (Bool-cases (n == 0)) [
  | inl e ↦ ground arith
  | inr e ↦ rw e (scan-digits n n [] (omega arith))
]

-- `atoi` reads back what `%d` printed.
pub atoi-decimal : (n : ℕ) → n < 2 ^ 31 → atoi (decimal n) ≡ some n
unfolding atoi
atoi-decimal n h = rw scan-decimal (ground arith)

length-digits :
    (k fuel n : ℕ) (out : List ℕ) → n < 10 ^ k → length (digits fuel n out) ≤ k + length out
unfolding digits
length-digits k zero n out h = omega arith
length-digits zero (suc fuel) n out h = let e : n ≡ 0 = omega arith in rw e (omega arith)
length-digits (suc k) (suc fuel) n out h = elim (Bool-cases (n == 0)) [
  | inl e ↦ rw e (omega arith)
  | inr e ↦ rw e (
      omega (
        arith,
        length-digits k fuel (n / 10) ((b'0' + n % 10) ∷ out) (omega (arith, pow-suc 10 k)),
      ))
]

-- An `int` that is not negative has at most ten digits.
pub length-decimal : (n : ℕ) → n < 2 ^ 31 → length (decimal n) ≤ 10
unfolding decimal
length-decimal n h = elim (Bool-cases (n == 0)) [
  | inl e ↦ rw e (omega arith)
  | inr e ↦ rw e (omega (arith, length-digits 10 n n [] (omega arith)))
]

pub length-decimal_le : (k n : ℕ) → 1 ≤ k → n < 10 ^ k → length (decimal n) ≤ k
unfolding decimal
length-decimal_le k n p h = elim (Bool-cases (n == 0)) [
  | inl e ↦ rw e (omega (arith, p))
  | inr e ↦ rw e (omega (arith, length-digits k n n [] h))
]

length-digits_out : (fuel n : ℕ) (out : List ℕ) → length out ≤ length (digits fuel n out)
unfolding digits
length-digits_out zero n out = omega arith
length-digits_out (suc fuel) n out = elim (Bool-cases (n == 0)) [
  | inl e ↦ rw e (omega arith)
  | inr e ↦ rw e (omega (arith, length-digits_out fuel (n / 10) ((b'0' + n % 10) ∷ out)))
]

length-digits_ge :
    (k fuel n : ℕ) (out : List ℕ)
    → n ≤ fuel
    → 10 ^ k ≤ n
    → k + 1 + length out ≤ length (digits fuel n out)
unfolding digits
length-digits_ge zero zero n out h p = absurd (omega (arith, p))
length-digits_ge (suc k) zero n out h p = absurd (omega (arith, pow-suc 10 k, pow_pos k))
  where
    pow_pos : (k : ℕ) → 1 ≤ 10 ^ k
    pow_pos zero = omega arith
    pow_pos (suc k) = omega (arith, pow-suc 10 k, pow_pos k)
length-digits_ge zero (suc fuel) n out h p = elim (Bool-cases (n == 0)) [
  | inl e ↦ absurd (ground arith)
  | inr e ↦ rw e (omega (arith, length-digits_out fuel (n / 10) ((b'0' + n % 10) ∷ out)))
]
length-digits_ge (suc k) (suc fuel) n out h p = elim (Bool-cases (n == 0)) [
  | inl e ↦ absurd (empty (==→eq n 0 e) (pow_pos (suc k)))
  | inr e ↦ rw e (
      omega (
        arith,
        length-digits_ge k fuel (n / 10) ((b'0' + n % 10) ∷ out) (ground arith)
            (omega (arith, pow-suc 10 k)),
      ))
]
  where
    pow_pos : (k : ℕ) → 1 ≤ 10 ^ k
    pow_pos zero = omega arith
    pow_pos (suc k) = omega (arith, pow-suc 10 k, pow_pos k)

    empty : n ≡ 0 → 1 ≤ 10 ^ suc k → ⊥
    empty e q = omega (arith, e, q, p)

-- A number with more than `k` digits.
pub length-decimal_ge : (k n : ℕ) → 1 ≤ n → 10 ^ k ≤ n → k + 1 ≤ length (decimal n)
unfolding decimal
length-decimal_ge k n q p = elim (Bool-cases (n == 0)) [
  | inl e ↦ absurd (ground arith)
  | inr e ↦ rw e (omega (arith, length-digits_ge k n n [] (omega arith) p))
]

digits-ne-nil : (fuel n c : ℕ) (out : List ℕ) → 1 ≤ length (digits fuel n (c ∷ out))
unfolding digits
digits-ne-nil zero n c out = omega arith
digits-ne-nil (suc fuel) n c out = elim (Bool-cases (n == 0)) [
  | inl e ↦ rw e (omega arith)
  | inr e ↦ rw e (digits-ne-nil fuel (n / 10) (b'0' + n % 10) (c ∷ out))
]

suc_not_zero : (n : ℕ) → (suc n == 0) ≡ false
suc_not_zero n = ground arith

pub decimal-pos : (n : ℕ) → 1 ≤ length (decimal n)
unfolding decimal digits
decimal-pos zero = omega arith
decimal-pos (suc n) = rw (suc_not_zero n) (digits-ne-nil n (suc n / 10) (b'0' + suc n % 10) [])

decimal_runs :
    decimal 2_147_483_647 ≡ b'2' ∷ b'1' ∷ b'4' ∷ b'7' ∷ b'4' ∷ b'8' ∷ b'3' ∷ b'6' ∷ b'4' ∷ b'7' ∷ []
unfolding decimal
decimal_runs = refl
