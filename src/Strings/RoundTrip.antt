-- ===== src/Strings/RoundTrip.antt =====
-- `str_unescape` undoes `str_escape` (server-5204/util/strings.h).
use expert_spoon.Prelude.{
  ℕ, zero, suc, ◌+◌, ◌*◌, ◌/◌, ◌%◌, ◌≤◌, ◌<◌, ◌≡◌, ◌^◌, refl, ap, ap₂, ◌∙◌, Bool, true, false, [],
  ◌∷◌, ◌++◌, ◌&&◌, Str, arith, leb, lt→ltb, int_limit, take, take_all, ◌==◌, if◌then◌else◌, length,
  length-append, All, newline, All-append,
}
use expert_spoon.Strings.{
  backslash, hex, escape_char, escape_bytes, int_size, str_escape, hex_int, escaped, unescape_from,
  str_unescape,
}

hex_int-hex : (d : ℕ) → d < 16 → hex_int (hex d) ≡ d
unfolding hex_int
hex_int-hex d h = ground arith

-- How one byte is written.
data Written : ℕ → Str → Type 0 where
  plain : {c : ℕ} → (c == backslash) ≡ false → Written c (c ∷ [])
  named : {c : ℕ} (c2 : ℕ) → (c2 == b'x') ≡ false → escaped c2 ≡ c → Written c (backslash ∷ c2 ∷ [])
  coded :
      {c : ℕ} (c3 c4 : ℕ)
      → (hex_int c3 * 16 + hex_int c4) % 256 ≡ c
      → Written c (backslash ∷ b'x' ∷ c3 ∷ c4 ∷ [])

code_of : (c : ℕ) → c < 256 → (hex_int (hex (c / 16)) * 16 + hex_int (hex (c % 16))) % 256 ≡ c
code_of c h =
    rw (hex_int-hex (c / 16) (omega arith), hex_int-hex (c % 16) (omega arith)) (omega arith)

Written-if :
    (c : ℕ) (b : Bool) (x y : Str)
    → (b ≡ true → Written c x)
    → (b ≡ false → Written c y)
    → Written c (if b then x else y)
Written-if c true x y hx hy = hx refl
Written-if c false x y hx hy = hy refl

escape_char-Written : (c : ℕ) → c < 256 → Written c (escape_char c)
unfolding escape_char
escape_char-Written c h =
    Written-if c (c == 13) _ _ (λ e. named {c = c} b'r' refl (unfold escaped in ground arith))
      λ _.
        Written-if c (c == 10) _ _ (λ e. named {c = c} b'n' refl (unfold escaped in ground arith))
          λ _.
            Written-if c (c == 9) _ _
              (λ e. named {c = c} b't' refl (unfold escaped in ground arith))
              λ _.
                Written-if c (c == backslash) _ _
                  (λ e. named {c = c} backslash refl (unfold escaped in ground arith))
                  λ p.
                    Written-if c (c == 32) _ _ (λ _. plain p)
                      λ _.
                        Written-if c (leb 33 c && leb c 126) _ _ (λ _. plain p)
                          λ _. coded (hex (c / 16)) (hex (c % 16)) (code_of c h)

unescape-Written :
    {c : ℕ} {w : Str} (fuel : ℕ) (rest : Str)
    → Written c w
    → unescape_from (suc fuel) (w ++ rest) ≡ c ∷ unescape_from fuel rest
unfolding unescape_from
unescape-Written fuel rest (plain e) = rw (e, unescape_from) refl
unescape-Written fuel rest (named c2 e v) =
    rw (e, unescape_from) (ap (λ x. x ∷ unescape_from fuel rest) v)
unescape-Written fuel rest (coded c3 c4 v) = ap (λ x. x ∷ unescape_from fuel rest) v

length-Written : {c : ℕ} {w : Str} → Written c w → 1 ≤ length w
length-Written (plain e) = omega arith
length-Written (named c2 e v) = omega arith
length-Written (coded c3 c4 v) = omega arith

unescape-escape :
    (fuel : ℕ) (s : Str)
    → All (λ c. c < 256) s
    → length (escape_bytes s) ≤ fuel
    → unescape_from fuel (escape_bytes s) ≡ s
unfolding escape_bytes unescape_from
unescape-escape zero [] h p = refl
unescape-escape (suc fuel) [] h p = refl
unescape-escape zero (c ∷ s) h p = absurd (
    omega (
      arith,
      length-append {0} (escape_char c) (escape_bytes s),
      length-Written (escape_char-Written c h.0),
    ))
unescape-escape (suc fuel) (c ∷ s) h p =
    unescape-Written fuel (escape_bytes s) (escape_char-Written c h.0)
    ∙ ap (λ r. c ∷ r)
        (unescape-escape fuel s h.1 (
          omega (
            arith,
            length-append {0} (escape_char c) (escape_bytes s),
            length-Written (escape_char-Written c h.0),
          )))

pub int_size_small : (n : ℕ) → n < int_limit → int_size n ≡ n
unfolding int_size
int_size_small n h = let e : n % 2 ^ 32 ≡ n = omega (arith, h) in rw (e, lt→ltb n int_limit h) refl

-- A string that is short enough is taken whole.
take-int_size : (s : Str) → length s < int_limit → take (int_size (length s)) s ≡ s
take-int_size s h =
    ap (λ n. take n s) (int_size_small (length s) h) ∙ take_all (length s) s (omega arith)

str_escape_small : (s : Str) → length s < int_limit → str_escape s ≡ escape_bytes s
unfolding str_escape
str_escape_small s h = ap escape_bytes (take-int_size s h)

-- `str_unescape` undoes `str_escape` on every string of bytes that is shorter than 2^31, as its
-- escaped text is.
pub str_unescape-str_escape :
    (s : Str)
    → All (λ c. c < 256) s
    → length s < int_limit
    → length (str_escape s) < int_limit
    → str_unescape (str_escape s) ≡ s
unfolding str_unescape
str_unescape-str_escape s h small small' =
    let t = str_escape s in
    ap₂ unescape_from (int_size_small (length t) small') (take-int_size t small')
    ∙ ap₂ unescape_from (ap length (str_escape_small s small)) (str_escape_small s small)
    ∙ unescape-escape (length (escape_bytes s)) s h (omega arith)

-- Escaped text has no newline.
abbrev pub NoNewline : Str → Type 0
NoNewline s = All (λ c. (c == newline) ≡ false) s

hex_not_newline : (d : ℕ) → (hex d == newline) ≡ false
hex_not_newline d = ground arith

NoNewline-if :
    (b : Bool) (x y : Str)
    → NoNewline x
    → (b ≡ false → NoNewline y)
    → NoNewline (if b then x else y)
NoNewline-if true x y hx hy = hx
NoNewline-if false x y hx hy = hy refl

escape_char-NoNewline : (c : ℕ) → NoNewline (escape_char c)
unfolding escape_char
escape_char-NoNewline c =
    NoNewline-if (c == 13) _ _ (refl, (refl, tt))
      λ _.
        NoNewline-if (c == 10) _ _ (refl, (refl, tt))
          λ other.
            NoNewline-if (c == 9) _ _ (refl, (refl, tt))
              λ _.
                NoNewline-if (c == backslash) _ _ (refl, (refl, tt))
                  λ _.
                    NoNewline-if (c == 32) _ _ (other, tt)
                      λ _.
                        NoNewline-if (leb 33 c && leb c 126) _ _ (other, tt)
                          λ _. (
                            refl,
                            (refl, (hex_not_newline (c / 16), (hex_not_newline (c % 16), tt))),
                          )

escape_bytes-NoNewline : (s : Str) → NoNewline (escape_bytes s)
unfolding escape_bytes
escape_bytes-NoNewline [] = tt
escape_bytes-NoNewline (c ∷ s) =
    All-append (λ x. (x == newline) ≡ false) (escape_char c) (escape_bytes s)
      (escape_char-NoNewline c) (escape_bytes-NoNewline s)

pub str_escape-NoNewline : (s : Str) → NoNewline (str_escape s)
unfolding str_escape
str_escape-NoNewline s = escape_bytes-NoNewline (take (int_size (length s)) s)
