-- ===== src/Bytes.antt =====
-- Bytes and Decoder (server-5204/util/bytes.h). Bytes is what it points at; a Decoder is a place in a block
-- and the number of bytes behind it. A `char` is compared as a byte.
pub mod Order
pub mod Reads
use expert_spoon.Prelude.{
  ℕ, zero, suc, ◌+◌, ◌-◌, ◌*◌, ◌^◌, min, Bool, true, false, not, ◌&&◌, Option, none, some, List, [],
  ◌∷◌, ◌++◌, Str, if◌then◌else◌, ◌==◌, ltb, length, take, drop, get_or,
}

-- The sign of a result.
pub data Sign : Type 0 where
  less equal greater : Sign

unfoldable pub memcmp : ℕ → Str → Str → Sign
memcmp zero a b = equal
memcmp (suc n) [] b = equal
memcmp (suc n) (x ∷ a) [] = equal
memcmp (suc n) (x ∷ a) (y ∷ b) =
    let rest = memcmp n a b in if ltb x y then less else if ltb y x then greater else rest

unfoldable pub compare_sizes : ℕ → ℕ → Sign
compare_sizes m n = if ltb m n then less else if ltb n m then greater else equal

unfoldable pub compare : Str → Str → Sign
compare a b = elim (memcmp (min (length a) (length b)) a b) [
  | less ↦ less
  | equal ↦ compare_sizes (length a) (length b)
  | greater ↦ greater
]

abbrev pub is_equal : Sign → Bool
is_equal less = false
is_equal equal = true
is_equal greater = false

abbrev pub is_less : Sign → Bool
is_less less = true
is_less equal = false
is_less greater = false

abbrev pub is_greater : Sign → Bool
is_greater less = false
is_greater equal = false
is_greater greater = true

-- operator==, operator!=, operator>, operator>=, operator< and operator<=
unfoldable pub eq : Str → Str → Bool
eq x y = length x == length y && is_equal (memcmp (length x) x y)

unfoldable pub ne : Str → Str → Bool
ne x y = not (eq x y)

unfoldable pub gt : Str → Str → Bool
gt x y = is_greater (compare x y)

unfoldable pub ge : Str → Str → Bool
ge x y = not (is_less (compare x y))

unfoldable pub lt : Str → Str → Bool
lt x y = is_less (compare x y)

unfoldable pub le : Str → Str → Bool
le x y = not (is_greater (compare x y))

pub record Decoder : Type 0 where
  pub block : Str
  pub p : ℕ
  pub size : ℕ

-- *p, and the bytes from p on
abbrev pub at : Decoder → ℕ
at d = get_or d.block d.p 0

abbrev pub bytes_at : ℕ → Decoder → Str
bytes_at n d = take n (drop d.p d.block)

abbrev pub forward : ℕ → Decoder → Decoder
forward n d = record d { p = d.p + n; size = d.size - n }

-- Each read gives its result, or `none` for -1, and the decoder behind it. `skip` is called with no number
-- below 0.
unfoldable pub skip : ℕ → Decoder → Option ℕ × Decoder
skip n d = if ltb d.size n then (none, d) else (some n, forward n d)

-- The value of bytes, the lowest first, as the hosts of the server read it.
unfoldable pub little_endian : Str → ℕ
little_endian [] = 0
little_endian (b ∷ s) = b + 256 * little_endian s

unfoldable pub read_uint64 : Decoder → Option ℕ × Decoder
read_uint64 d =
    if ltb d.size 8 then (none, d) else (some (little_endian (bytes_at 8 d)), forward 8 d)

-- read_int64: the same bits, below 2^63 or less by 2^64 (`some (true, n)` is n - 2^64).
unfoldable pub read_int64 : Decoder → Option (Bool × ℕ) × Decoder
read_int64 d =
    let n = little_endian (bytes_at 8 d) in
    if ltb d.size 8 then (none, d) else (some (not (ltb n (2 ^ 63)), n), forward 8 d)

unfoldable pub read_data : Decoder → Str × Decoder
read_data d = (bytes_at d.size d, forward d.size d)

-- The length's byte is passed also where the data is not all there.
unfoldable pub read_8_data : Decoder → Option Str × Decoder
read_8_data d =
    let len = at d in
    let e = forward 1 d in
    if ltb d.size 1
    then (none, d)
    else if ltb e.size len
    then (none, e)
    else (some (bytes_at len e), forward len e)
