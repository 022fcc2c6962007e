-- ===== src/Tests/Texts.antt =====
-- Escaped text and lines.
use expert_spoon.Prelude.{◌≡◌, ◌<◌, refl, [], ◌∷◌, Str, arith, All, length, int_limit}
use expert_spoon.Strings.{
  str_escape, str_unescape, int_size, escape_bytes, escape_char, unescape_from,
}
use expert_spoon.Strings.RoundTrip.{str_unescape-str_escape}
use expert_spoon.Strings.Trim.{trim, ltrim, rtrim, is_space, is_empty_str, Trimmed, trim-Trimmed}
use expert_spoon.Line.{decoder, read_lines, write, write_lines}
use expert_spoon.Line.RoundTrip.{read_lines-write_lines}

-- "a", a line end, a backslash, a zero byte and the byte 255
abbrev odd_text : Str
odd_text = b'a' ∷ 13 ∷ 10 ∷ 92 ∷ 0 ∷ 255 ∷ []

odd_bytes : All (λ c. c < 256) odd_text
odd_bytes =
    (omega arith, (omega arith, (omega arith, (omega arith, (omega arith, (omega arith, tt))))))

escape_runs : str_escape (b'a' ∷ 10 ∷ 255 ∷ []) ≡ b'a' ∷ 92 ∷ b'n' ∷ 92 ∷ b'x' ∷ b'f' ∷ b'f' ∷ []
unfolding str_escape escape_bytes int_size escape_char
escape_runs = refl

-- An `x` with fewer than two bytes behind it is dropped.
unescape_runs : str_unescape (92 ∷ b'x' ∷ b'4' ∷ []) ≡ b'4' ∷ []
unfolding str_unescape int_size unescape_from
unescape_runs = refl

odd_short : length (str_escape odd_text) < int_limit
unfolding str_escape escape_bytes int_size escape_char
odd_short = omega arith

lines_short : length (write_lines [] (odd_text ∷ [] ∷ [])) < int_limit
unfolding write_lines write str_escape escape_bytes int_size escape_char
lines_short = omega arith

str_unescape-str_escape_example : str_unescape (str_escape odd_text) ≡ odd_text
str_unescape-str_escape_example = str_unescape-str_escape odd_text odd_bytes (omega arith) odd_short

read_lines-write_lines_example :
    read_lines 2 (decoder (write_lines [] (odd_text ∷ [] ∷ []))) ≡ odd_text ∷ [] ∷ []
read_lines-write_lines_example =
    read_lines-write_lines (odd_text ∷ [] ∷ []) (odd_bytes, (tt, tt))
      (omega arith, (omega arith, tt)) lines_short

trim_runs : trim (32 ∷ 9 ∷ b'a' ∷ 32 ∷ b'b' ∷ 13 ∷ []) ≡ b'a' ∷ 32 ∷ b'b' ∷ []
unfolding trim ltrim rtrim is_space is_empty_str
trim_runs = refl

trim-Trimmed_example : Trimmed (32 ∷ b'a' ∷ 9 ∷ []) (trim (32 ∷ b'a' ∷ 9 ∷ []))
trim-Trimmed_example = trim-Trimmed (32 ∷ b'a' ∷ 9 ∷ [])
