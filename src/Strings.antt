-- ===== src/Strings.antt =====
-- server-5204/util/strings.h: the text helpers. A `char` is a byte, and a test of the sign of a `char` is
-- one against 128.
pub mod RoundTrip
pub mod Trim
pub mod Integers
use expert_spoon.Prelude.{
  ℕ, zero, suc, ◌+◌, ◌-◌, ◌*◌, ◌/◌, ◌%◌, ◌^◌, Bool, true, false, ◌&&◌, Option, none, some, List, [],
  ◌∷◌, ◌++◌, Str, ltb, leb, ◌==◌, if◌then◌else◌, length, take, int_limit,
}

abbrev pub backslash : ℕ
backslash = 92

-- "0123456789abcdef"[d]
abbrev pub hex : ℕ → ℕ
hex d = if ltb d 10 then b'0' + d else b'a' + (d - 10)

-- the switch of `str_escape`
unfoldable pub escape_char : ℕ → Str
escape_char c =
    if c == 13
    then backslash ∷ b'r' ∷ []
    else if c == 10
    then backslash ∷ b'n' ∷ []
    else if c == 9
    then backslash ∷ b't' ∷ []
    else if c == backslash
    then backslash ∷ backslash ∷ []
    else if c == 32
    then c ∷ []
    else if leb 33 c && leb c 126
    then c ∷ []
    else backslash ∷ b'x' ∷ hex (c / 16) ∷ hex (c % 16) ∷ []

-- The loop of `str_escape`.
unfoldable pub escape_bytes : Str → Str
escape_bytes [] = []
escape_bytes (c ∷ s) = escape_char c ++ escape_bytes s

-- The rounds of a loop whose bound is (int)n: a size keeps its low 32 bits, and from 2^31 on they stand for
-- a number below 0.
unfoldable pub int_size : ℕ → ℕ
int_size n = if ltb (n % 2 ^ 32) int_limit then n % 2 ^ 32 else 0

-- The form for a std::string, which passes (int)s.size().
unfoldable pub str_escape : Str → Str
unfolding int_size escape_bytes
str_escape s = escape_bytes (take (int_size (length s)) s)

-- The low eight bits of the result, which is negative for a character before 'W'.
unfoldable pub hex_int : ℕ → ℕ
hex_int c = if leb b'0' c && leb c b'9' then c - b'0' else (c + 256 - b'a' + 10) % 256

-- what stands for `c2` behind a backslash, `x` apart
unfoldable pub escaped : ℕ → ℕ
escaped c2 =
    if c2 == b'a'
    then 7
    else if c2 == b'b'
    then 8
    else if c2 == b'f'
    then 12
    else if c2 == b'v'
    then 11
    else if c2 == b'r'
    then 13
    else if c2 == b'n'
    then 10
    else if c2 == b't'
    then 9
    else c2

-- The loop of `str_unescape`, with its rounds counted down.
unfoldable pub unescape_from : ℕ → Str → Str
unescape_from zero s = []
unescape_from (suc fuel) [] = []
unescape_from (suc fuel) (c ∷ s) = elim (c == backslash) [
  | false ↦ c ∷ unescape_from fuel s
  | true ↦ elim s [
    | [] ↦ []
    | c2 ∷ s2 ↦ elim (c2 == b'x') [
      | false ↦ escaped c2 ∷ unescape_from fuel s2
      | true ↦ elim s2 [
        | [] ↦ unescape_from fuel []
        | c3 ∷ s3 ↦ elim s3 [
          | [] ↦ unescape_from fuel (c3 ∷ [])
          | c4 ∷ s4 ↦ ((hex_int c3 * 16 + hex_int c4) % 256) ∷ unescape_from fuel s4
        ]
      ]
    ]
  ]
]

-- The form for a std::string, which passes (int)s.size(). Each round takes a byte or more.
unfoldable pub str_unescape : Str → Str
unfolding int_size unescape_from
str_unescape s = let size = int_size (length s) in unescape_from size (take size s)

-- big_endian: the bytes of 16, 32 and 64 bits in the other order. The parts that `|` joins do not
-- overlap, so it is a sum.
unfoldable pub big_endian16 : ℕ → ℕ
big_endian16 v = v / 2 ^ 8 + (v * 2 ^ 8) % 2 ^ 16

unfoldable pub big_endian32 : ℕ → ℕ
big_endian32 v =
    v / 2 ^ 24 + (v / 2 ^ 16 % 2 ^ 8) * 2 ^ 8 + (v / 2 ^ 8 % 2 ^ 8) * 2 ^ 16 + (v * 2 ^ 24) % 2 ^ 32

unfoldable pub big_endian64 : ℕ → ℕ
big_endian64 v = big_endian32 (v / 2 ^ 32) + (big_endian32 (v % 2 ^ 32) * 2 ^ 32) % 2 ^ 64

-- The bits of one byte: while(c){ n += c & 1; c = c >> 1; }, at most eight rounds.
unfoldable pub bits : ℕ → ℕ → ℕ
bits zero c = 0
bits (suc fuel) c = let rest = bits fuel (c / 2) in if c == 0 then 0 else c % 2 + rest

unfoldable pub bitcount : Str → ℕ
bitcount [] = 0
bitcount (c ∷ s) = bits 8 c + bitcount s
