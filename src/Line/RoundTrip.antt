-- ===== src/Line/RoundTrip.antt =====
-- What a LineEncoder wrote, a LineDecoder reads (server-5204/util/line.h).
use expert_spoon.Prelude.{
  ℕ, suc, ◌+◌, ◌-◌, ◌<◌, ◌≡◌, refl, sym, ap, ap₂, ◌∙◌, false, some, List, [], ◌∷◌, ◌++◌, Str, arith,
  ◌==◌, length, length-append, take, drop, take-append_length, drop-append_length, append_assoc,
  append-nil, All, newline, int_limit, take_all, subst,
}
use expert_spoon.Framing.{memchr}
use expert_spoon.Strings.{str_escape, str_unescape}
use expert_spoon.Strings.RoundTrip.{
  NoNewline, int_size_small, str_escape-NoNewline, str_unescape-str_escape,
}
use expert_spoon.Line.{write, LineDecoder, decoder, read, read_lines, write_lines}

memchr-step :
    (x c : ℕ) (s : Str) (n : ℕ)
    → (x == c) ≡ false
    → memchr s c ≡ some n
    → memchr (x ∷ s) c ≡ some (n + 1)
unfolding memchr
memchr-step x c s n h e = ground arith

memchr-NoNewline :
    (s rest : Str) → NoNewline s → memchr (s ++ newline ∷ rest) newline ≡ some (length s)
memchr-NoNewline [] rest h = found rest
  where
    found : (rest : Str) → memchr (newline ∷ rest) newline ≡ some 0
    found rest = unfold memchr in ground arith
memchr-NoNewline (c ∷ s) rest h =
    memchr-step c newline (s ++ newline ∷ rest) (length s) h.0 (memchr-NoNewline s rest h.1)
    ∙ ap some (omega arith)

-- The decoder between two lines.
abbrev at_line : Str → ℕ → LineDecoder
at_line buf n = record { buf = buf; len = length buf; spos = n; epos = n }

memchr_found :
    (d : LineDecoder) (n : ℕ)
    → memchr (drop d.epos (take d.len d.buf)) newline ≡ some n
    → read d ≡ (
      some (str_unescape (take (d.epos + n - d.spos) (drop d.spos d.buf))),
      record d { spos = d.epos + n + 1; epos = d.epos + n + 1 },
    )
unfolding read str_unescape
memchr_found d n e = rw (e, read) refl

read_line :
    (before s rest : Str)
    → All (λ c. c < 256) s
    → length s < int_limit
    → length (str_escape s) < int_limit
    → read (at_line (before ++ (str_escape s ++ newline ∷ rest)) (length before)) ≡ (
      some s,
      at_line
          (before ++ (str_escape s ++ newline ∷ rest))
          (length before + length (str_escape s) + 1),
    )
read_line before s rest h small small' =
    let line = str_escape s in
    let text = before ++ (line ++ newline ∷ rest) in
    let behind : drop (length before) text ≡ line ++ newline ∷ rest =
      drop-append_length before (line ++ newline ∷ rest) (length before) refl in
    let found : memchr (drop (length before) (take (length text) text)) newline
        ≡ some (length line) =
      ap (λ x. memchr (drop (length before) x) newline) (take_all (length text) text (omega arith))
      ∙ ap (λ x. memchr x newline) behind
      ∙ memchr-NoNewline line rest (str_escape-NoNewline s) in
    let size : length before + length line - length before ≡ length line = omega arith in
    let taken : str_unescape
          (take (length before + length line - length before) (drop (length before) text))
        ≡ s =
      ap₂ (λ n x. str_unescape (take n x)) size behind
      ∙ ap str_unescape (take-append_length line (newline ∷ rest) (length line) refl)
      ∙ str_unescape-str_escape s h small small' in
    memchr_found (at_line text (length before)) (length line) found
    ∙ ap (λ t. (some t, at_line text (length before + length line + 1))) taken

-- The text of several lines.
abbrev lines_of : List Str → Str
lines_of [] = []
lines_of (s ∷ ms) = str_escape s ++ newline ∷ lines_of ms

write_lines-lines_of : (val : Str) (ms : List Str) → write_lines val ms ≡ val ++ lines_of ms
unfolding write_lines write
write_lines-lines_of val [] = sym (append-nil val)
write_lines-lines_of val (s ∷ ms) =
    write_lines-lines_of (val ++ (str_escape s ++ newline ∷ [])) ms
    ∙ append_assoc val (str_escape s ++ newline ∷ []) (lines_of ms)
    ∙ ap (λ x. val ++ x) (append_assoc (str_escape s) (newline ∷ []) (lines_of ms))

read_lines-step :
    (n : ℕ) (d e : LineDecoder) (s : Str)
    → read d ≡ (some s, e)
    → read_lines (suc n) d ≡ s ∷ read_lines n e
unfolding read_lines
read_lines-step n d e s h = rw (ap (λ r. r.0) h, read_lines) (ap (λ r. s ∷ read_lines n r.1) h)

read_lines-lines_of :
    (before : Str) (ms : List Str)
    → All (λ s. All (λ c. c < 256) s) ms
    → All (λ s. length s < int_limit) ms
    → length (before ++ lines_of ms) < int_limit
    → read_lines (length ms) (at_line (before ++ lines_of ms) (length before)) ≡ ms
unfolding read_lines
read_lines-lines_of before [] h short small = refl
read_lines-lines_of before (s ∷ ms) h short small =
    let line = str_escape s ++ newline ∷ [] in
    let regroup : before ++ lines_of (s ∷ ms) ≡ (before ++ line) ++ lines_of ms =
      ap (λ x. before ++ x) (sym (append_assoc (str_escape s) (newline ∷ []) (lines_of ms)))
      ∙ sym (append_assoc before line (lines_of ms)) in
    let size : length before + length (str_escape s) + 1 ≡ length (before ++ line) =
      omega
        (arith, length-append {0} before line, length-append {0} (str_escape s) (newline ∷ [])) in
    read_lines-step (length ms) _ _ s (
      read_line before s (lines_of ms) h.0 short.0 (
        omega (
          arith,
          small,
          length-append {0} before (lines_of (s ∷ ms)),
          length-append {0} (str_escape s) (newline ∷ lines_of ms),
        )))
    ∙ ap (λ r. s ∷ r)
        (ap₂ (λ x n. read_lines (length ms) (at_line x n)) regroup size
          ∙ read_lines-lines_of (before ++ line) ms h.1 short.1
              (subst (λ x. length x < int_limit) regroup small))

-- A LineDecoder reads back, in order, the strings of bytes that a LineEncoder wrote, line ends and
-- zero bytes in them included, where each string and the text written are shorter than 2^31.
pub read_lines-write_lines :
    (ms : List Str)
    → All (λ s. All (λ c. c < 256) s) ms
    → All (λ s. length s < int_limit) ms
    → length (write_lines [] ms) < int_limit
    → read_lines (length ms) (decoder (write_lines [] ms)) ≡ ms
unfolding decoder
read_lines-write_lines ms h short small =
    let text = write_lines [] ms in
    ap (λ n. read_lines (length ms) (record { buf = text; len = n; spos = 0; epos = 0 }))
      (int_size_small (length text) small)
    ∙ ap (λ x. read_lines (length ms) (at_line x 0)) (write_lines-lines_of [] ms)
    ∙ read_lines-lines_of [] ms h short
        (subst (λ x. length x < int_limit) (write_lines-lines_of [] ms) small)
