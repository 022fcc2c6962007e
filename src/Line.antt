-- ===== src/Line.antt =====
-- server-5204/util/line.h: LineEncoder and LineDecoder, escaped text in lines. `buf` is what `data()`
-- pointed to when the decoder was made.
pub mod RoundTrip
use expert_spoon.Prelude.{
  ℕ, zero, suc, ◌+◌, ◌-◌, Bool, true, false, Option, none, some, List, [], ◌∷◌, ◌++◌, Str, ltb,
  if◌then◌else◌, length, take, drop, newline,
}
use expert_spoon.Framing.{memchr}
use expert_spoon.Strings.{int_size, str_escape, str_unescape}

-- LineEncoder::write on its `val`
unfoldable pub write : Str → Str → Str
write val text = val ++ (str_escape text ++ newline ∷ [])

pub record LineDecoder : Type 0 where
  pub buf : Str
  pub len : ℕ
  pub spos : ℕ
  pub epos : ℕ

-- LineDecoder(s), with len = (int)s.size(); where that is below 0 nothing is read, as with 0
unfoldable pub decoder : Str → LineDecoder
unfolding int_size
decoder s = record { buf = s; len = int_size (length s); spos = 0; epos = 0 }

-- LineDecoder::read: the line, and `none` for -1. The line begins at `spos`; the search begins at `epos` and
-- ends at `len`, and where it finds no newline `epos` stays there.
unfoldable pub read : LineDecoder → Option Str × LineDecoder
read d = elim (memchr (drop d.epos (take d.len d.buf)) newline) [
  | none ↦ (none, record d { epos = if ltb d.epos d.len then d.len else d.epos })
  | some n ↦ (
    some (str_unescape (take (d.epos + n - d.spos) (drop d.spos d.buf))),
    record d { spos = d.epos + n + 1; epos = d.epos + n + 1 },
  )
]

-- Reading `n` lines, as a caller does who knows their number; it stops at -1.
unfoldable pub read_lines : ℕ → LineDecoder → List Str
read_lines zero d = []
read_lines (suc n) d = elim (read d).0 [ none ↦ [] | some s ↦ s ∷ read_lines n (read d).1 ]

-- Writing several texts.
unfoldable pub write_lines : Str → List Str → Str
write_lines val [] = val
write_lines val (text ∷ rest) = write_lines (write val text) rest
