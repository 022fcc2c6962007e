-- ===== src/Bytes/Reads.antt =====
-- Decoder's reads (server-5204/util/bytes.h): what they answer, and that they stay in the bytes that it was
-- made of.
use expert_spoon.Prelude.{
  ℕ, zero, suc, ◌+◌, ◌-◌, ◌^◌, ◌≤◌, ◌<◌, ◌≡◌, refl, sym, ap, ap₂, ◌∙◌, ◌⊎◌, take-append-drop,
  take-take, drop-take, drop-drop, Bool, true, false, not, Option, none, some, [], ◌∷◌, ◌++◌, Str,
  if◌then◌else◌, ltb, ltb→le, ltb→lt, length, take, drop, get_or, length-take, length-drop, arith,
  inl, inr, Bool-cases,
}
use expert_spoon.Bytes.{
  Decoder, at, bytes_at, forward, skip, little_endian, read_uint64, read_int64, read_data,
  read_8_data,
}

-- The decoder moved forward in the same block, and ends where it did.
pub record Moves (d e : Decoder) : Type 0 where
  pub block_kept : e.block ≡ d.block
  pub end_kept : e.p + e.size ≡ d.p + d.size
  pub onward : d.p ≤ e.p

Moves-refl : (d : Decoder) → Moves d d
Moves-refl d = record { block_kept = refl; end_kept = refl; onward = omega arith }

Moves-trans : (d e f : Decoder) → Moves d e → Moves e f → Moves d f
Moves-trans d e f m n = record {
  block_kept = n.block_kept ∙ m.block_kept;
  end_kept = n.end_kept ∙ m.end_kept;
  onward = omega (arith, m.onward, n.onward);
}

forward-Moves : (n : ℕ) (d : Decoder) → n ≤ d.size → Moves d (forward n d)
forward-Moves n d h = record {
  block_kept = refl;
  end_kept = omega (arith, h);
  onward = omega arith;
}

if_enough :
    {A : Type 0} (n : ℕ) (d : Decoder) (x y : A)
    → Moves d (if◌then◌else◌ {A = A × Decoder} (ltb d.size n) (x, d) (y, forward n d)).1
if_enough n d x y = elim (Bool-cases (ltb d.size n)) [
  | inl e ↦ rw e (Moves-refl d)
  | inr e ↦ rw e (forward-Moves n d (ltb→le d.size n e))
]

read_8_data-Moves : (d : Decoder) → Moves d (read_8_data d).1
unfolding read_8_data
read_8_data-Moves d = elim (Bool-cases (ltb d.size 1)) [
  | inl e ↦ rw e (Moves-refl d)
  | inr e ↦ rw e (
      Moves-trans d (forward 1 d) _ (forward-Moves 1 d (ltb→le d.size 1 e))
        (if_enough (at d) (forward 1 d) none (some (bytes_at (at d) (forward 1 d)))))
]

-- Reads in any order.
pub data Run (d : Decoder) : Decoder → Type 0 where
  no_read : Run d d
  after_skip : {e : Decoder} (n : ℕ) → Run d e → Run d (skip n e).1
  after_uint64 : {e : Decoder} → Run d e → Run d (read_uint64 e).1
  after_int64 : {e : Decoder} → Run d e → Run d (read_int64 e).1
  after_data : {e : Decoder} → Run d e → Run d (read_data e).1
  after_8_data : {e : Decoder} → Run d e → Run d (read_8_data e).1

Run-Moves : {d e : Decoder} → Run d e → Moves d e
unfolding skip read_uint64 read_int64 read_data
Run-Moves {d} no_read = Moves-refl d
Run-Moves {d} (after_skip {e = e} n run) =
    Moves-trans d e _ (Run-Moves run) (if_enough n e none (some n))
Run-Moves {d} (after_uint64 {e = e} run) =
    Moves-trans d e _ (Run-Moves run) (if_enough 8 e none (some _))
Run-Moves {d} (after_int64 {e = e} run) =
    Moves-trans d e _ (Run-Moves run) (if_enough 8 e none (some _))
Run-Moves {d} (after_data {e = e} run) =
    Moves-trans d e _ (Run-Moves run) (forward-Moves e.size e (omega arith))
Run-Moves {d} (after_8_data {e = e} run) = Moves-trans d e _ (Run-Moves run) (read_8_data-Moves e)

-- The first bytes of those that are left, and the others.
front_of :
    (n : ℕ) (d : Decoder)
    → n ≤ d.size
    → bytes_at d.size d ≡ bytes_at n d ++ bytes_at (d.size - n) (forward n d)
front_of n d h =
    let xs = drop d.p d.block in
    let whole : n + (d.size - n) ≡ d.size = omega (arith, h) in
    sym (take-append-drop n (take d.size xs))
    ∙ ap₂ (λ a b. a ++ b) (take-take n d.size xs h)
        (ap (λ k. drop n (take k xs)) (sym whole)
          ∙ drop-take n (d.size - n) xs
          ∙ ap (take (d.size - n)) (drop-drop n d.p (d.p + n) d.block (omega arith)))

-- The bytes that are left.
abbrev pub left : Decoder → Str
left d = bytes_at d.size d

abbrev Fits : Decoder → Type 0
Fits d = d.p + d.size ≤ length d.block

length-bytes_at : (n : ℕ) (d : Decoder) → Fits d → n ≤ d.size → length (bytes_at n d) ≡ n
length-bytes_at n d h k =
    omega (arith, length-take n (drop d.p d.block), length-drop d.p d.block, h, k)

-- What each read answers, and what is left behind it, by the bytes that were left.
abbrev pub Skips : ℕ → Str → Option ℕ × Str → Type 0
Skips n s (none, t) = (length s < n) × (t ≡ s)
Skips n s (some m, t) = (m ≡ n) × ((bs : Str) × (length bs ≡ n) × (s ≡ bs ++ t))

abbrev pub ReadsUint64 : Str → Option ℕ × Str → Type 0
ReadsUint64 s (none, t) = (length s < 8) × (t ≡ s)
ReadsUint64 s (some v, t) = (bs : Str) × (length bs ≡ 8) × (s ≡ bs ++ t) × (v ≡ little_endian bs)

abbrev pub ReadsInt64 : Str → Option (Bool × ℕ) × Str → Type 0
ReadsInt64 s (none, t) = (length s < 8) × (t ≡ s)
ReadsInt64 s (some (is_negative, v), t) =
    (((is_negative ≡ false) × (v < 2 ^ 63)) ⊎ ((is_negative ≡ true) × (2 ^ 63 ≤ v)))
    × ((bs : Str) × (length bs ≡ 8) × (s ≡ bs ++ t) × (v ≡ little_endian bs))

abbrev pub Reads8Data : Str → Option Str × Str → Type 0
Reads8Data s (none, t) = ((s ≡ []) × (t ≡ [])) ⊎ ((len : ℕ) × (s ≡ len ∷ t) × (length t < len))
Reads8Data s (some x, t) = s ≡ length x ∷ (x ++ t)

-- A decoder inside its block, at the end of which it was made, and what the reads of it answer.
pub record Inside (d e : Decoder) : Type 0 where
  pub moves : Moves d e
  pub skips : (n : ℕ) → Skips n (left e) ((skip n e).0, left (skip n e).1)
  pub reads_uint64 : ReadsUint64 (left e) ((read_uint64 e).0, left (read_uint64 e).1)
  pub reads_int64 : ReadsInt64 (left e) ((read_int64 e).0, left (read_int64 e).1)
  pub reads_data : ((read_data e).0 ≡ left e) × (left (read_data e).1 ≡ [])
  pub reads_8_data : Reads8Data (left e) ((read_8_data e).0, left (read_8_data e).1)

skip-Skips : (n : ℕ) (d : Decoder) → Fits d → Skips n (left d) ((skip n d).0, left (skip n d).1)
unfolding skip
skip-Skips n d h = elim (Bool-cases (ltb d.size n)) [
  | inl e ↦
      rw (e, Skips) (omega (arith, length-bytes_at d.size d h (omega arith), ltb→lt _ _ e), refl)
  | inr e ↦
      let k = ltb→le d.size n e in
      rw (e, Skips) (refl, (bytes_at n d, length-bytes_at n d h k, front_of n d k))
]

read_uint64-Reads :
    (d : Decoder) → Fits d → ReadsUint64 (left d) ((read_uint64 d).0, left (read_uint64 d).1)
unfolding read_uint64
read_uint64-Reads d h = elim (Bool-cases (ltb d.size 8)) [
  | inl e ↦
      rw (e, ReadsUint64)
        (omega (arith, length-bytes_at d.size d h (omega arith), ltb→lt _ _ e), refl)
  | inr e ↦
      let k = ltb→le d.size 8 e in
      rw (e, ReadsUint64) (bytes_at 8 d, length-bytes_at 8 d h k, front_of 8 d k, refl)
]

sign_of :
    (v : ℕ)
    → ((not (ltb v (2 ^ 63)) ≡ false) × (v < 2 ^ 63))
      ⊎ ((not (ltb v (2 ^ 63)) ≡ true) × (2 ^ 63 ≤ v))
sign_of v = elim (Bool-cases (ltb v (2 ^ 63))) [
  | inl e ↦ inl (ap not e, ltb→lt _ _ e)
  | inr e ↦ inr (ap not e, ltb→le _ _ e)
]

read_int64-Reads :
    (d : Decoder) → Fits d → ReadsInt64 (left d) ((read_int64 d).0, left (read_int64 d).1)
unfolding read_int64
read_int64-Reads d h = elim (Bool-cases (ltb d.size 8)) [
  | inl e ↦
      rw (e, ReadsInt64)
        (omega (arith, length-bytes_at d.size d h (omega arith), ltb→lt _ _ e), refl)
  | inr e ↦
      let k = ltb→le d.size 8 e in
      rw (e, ReadsInt64)
        (
          sign_of (little_endian (bytes_at 8 d)),
          (bytes_at 8 d, length-bytes_at 8 d h k, front_of 8 d k, refl),
        )
]

read_data-Reads : (d : Decoder) → ((read_data d).0 ≡ left d) × (left (read_data d).1 ≡ [])
unfolding read_data
read_data-Reads d =
    let none_left : d.size - d.size ≡ 0 = omega arith in
    (refl, ap (λ n. take n (drop (d.p + d.size) d.block)) none_left)

first_byte : (p : ℕ) (xs : Str) → p < length xs → take 1 (drop p xs) ≡ get_or xs p 0 ∷ []
first_byte p [] h = absurd (omega arith)
first_byte zero (x ∷ xs) h = refl
first_byte (suc p) (x ∷ xs) h = first_byte p xs (omega arith)

read_8_data-Reads :
    (d : Decoder) → Fits d → Reads8Data (left d) ((read_8_data d).0, left (read_8_data d).1)
unfolding read_8_data
read_8_data-Reads d h = elim (Bool-cases (ltb d.size 1)) [
  | inl e ↦
      let empty : d.size ≡ 0 = omega (arith, ltb→lt _ _ e) in
      let nothing = ap (λ n. take n (drop d.p d.block)) empty in
      rw (e, Reads8Data) (inl (nothing, nothing))
  | inr e ↦
      let k = ltb→le d.size 1 e in
      let f = forward 1 d in
      let head : left d ≡ at d ∷ left f =
        front_of 1 d k ∙ ap (λ x. x ++ left f) (first_byte d.p d.block (omega (arith, h, k))) in
      let fits : Fits f = omega (arith, h, k) in
      elim (Bool-cases (ltb f.size (at d))) [
        | inl e' ↦
            rw (e, e', Reads8Data)
              (inr (
                at d,
                head,
                omega (arith, length-bytes_at f.size f fits (omega arith), ltb→lt _ _ e'),
              ))
        | inr e' ↦
            let j = ltb→le f.size (at d) e' in
            rw (e, e', Reads8Data)
              (head
                ∙ ap₂ (λ n x. n ∷ x) (sym (length-bytes_at (at d) f fits j)) (front_of (at d) f j))
      ]
]

-- After reads of a Decoder in any order, each `skip` of a number that is not negative, the decoder
-- is in its block and ends where it did, if it was made so, and what it reads next is there: `skip`
-- takes the number of bytes asked for, `read_uint64` and `read_int64` the value of the first eight,
-- the lowest first, `read_data` all bytes, and `read_8_data` as many as the first byte says; each
-- keeps the bytes behind, and is -1 exactly where there are too few, `read_8_data` having taken the
-- first byte.
pub Run-Inside : {d e : Decoder} → Run d e → d.p + d.size ≤ length d.block → Inside d e
Run-Inside {d} {e} run h =
    let m = Run-Moves run in
    let fits : Fits e = omega (arith, ap length m.block_kept, m.end_kept, h) in
    record {
      moves = m;
      skips = λ n. skip-Skips n e fits;
      reads_uint64 = read_uint64-Reads e fits;
      reads_int64 = read_int64-Reads e fits;
      reads_data = read_data-Reads e;
      reads_8_data = read_8_data-Reads e fits;
    }
