-- ===== src/Framing.antt =====
-- What `Buffer::read_record` (server-5204/util/bytes.cpp) and `Link::parse` (server-5204/link.cpp)
-- share: the header line that holds a record's length in decimal.
use expert_spoon.Prelude.{
  ◌-◌, append_assoc, drop-append_ge, drop-drop, drop-append_length, ℕ, zero, suc, ◌+◌, ◌≤◌, ◌<◌,
  ◌^◌, ◌≡◌, refl, ap, subst, sym, ◌∙◌, true, false, Option, none, some, [], ◌∷◌, ◌++◌, Str, arith,
  ltb, ◌==◌, if◌then◌else◌, newline, length, take, drop, get_or, take-append_length, length-append,
}
use expert_spoon.Prelude.Decimal.{
  decimal, atoi, AllDigits, is_digit, decimal-AllDigits, decimal-pos, atoi-decimal, length-decimal,
}

-- memchr: the index of the first `c`, and `none` for NULL.
unfoldable pub memchr : Str → ℕ → Option ℕ
memchr [] c = none
memchr (x ∷ s) c = elim (memchr s c) [
  | none ↦ if x == c then some 0 else none
  | some n ↦ if x == c then some 0 else some (n + 1)
]

-- p[i]
abbrev pub at : Str → ℕ → ℕ
at s i = get_or s i 0

-- The length that a header line of `n` bytes before its newline states, as long as it is well
-- formed: it begins with a digit, it fits `char head_str[20]`, and `atoi` is not negative.
unfoldable pub header_value : Str → ℕ → Option ℕ
header_value head n =
    if is_digit (at head 0) then (if ltb 19 (n + 1) then none else atoi (take n head)) else none

-- What `append_record` writes for `s`.
unfoldable pub record_of : Str → Str
record_of s = decimal (length s) ++ newline ∷ (s ++ newline ∷ [])

digit_ne_newline : (c : ℕ) → is_digit c ≡ true → (c == newline) ≡ false
digit_ne_newline c h = ground arith

memchr_step :
    (x c n : ℕ) (s : Str) → (x == c) ≡ false → memchr s c ≡ some n → memchr (x ∷ s) c ≡ some (n + 1)
unfolding memchr
memchr_step x c n s h e = ground arith

pub memchr_here : (c : ℕ) (s : Str) → memchr (c ∷ s) c ≡ some 0
unfolding memchr
memchr_here c s = ground arith

pub memchr_digits :
    (ds rest : Str) → AllDigits ds → memchr (ds ++ newline ∷ rest) newline ≡ some (length ds)
memchr_digits [] rest h = memchr_here newline rest
memchr_digits (d ∷ ds) rest h =
    let e : length ds + 1 ≡ suc (length ds) = omega arith in
    memchr_step d newline (length ds) (ds ++ newline ∷ rest) (digit_ne_newline d h.0)
      (memchr_digits ds rest h.1)
    ∙ ap some e

first_digit : (ds rest : Str) → 1 ≤ length ds → AllDigits ds → is_digit (at (ds ++ rest) 0) ≡ true
first_digit [] rest p h = absurd (omega arith)
first_digit (d ∷ ds) rest p h = h.0

header_value-decimal :
    (n k : ℕ) (rest : Str)
    → n < 2 ^ 31
    → k ≡ length (decimal n)
    → header_value (decimal n ++ rest) k ≡ some n
unfolding header_value
header_value-decimal n k rest h e =
    let short : ltb 19 (k + 1) ≡ false = ground (arith, length-decimal n h) in
    rw
      (
        first_digit (decimal n) rest (decimal-pos n) (decimal-AllDigits n),
        short,
        take-append_length (decimal n) rest k e,
      )
      (atoi-decimal n h)

-- The header that an append writes is found and read back.
pub header_written :
    (n : ℕ) (rest : Str)
    → n < 2 ^ 31
    → (memchr (decimal n ++ newline ∷ rest) newline ≡ some (length (decimal n)))
      × (header_value (decimal n ++ newline ∷ rest) (length (decimal n)) ≡ some n)
header_written n rest h = (
  memchr_digits (decimal n) rest (decimal-AllDigits n),
  header_value-decimal n _ (newline ∷ rest) h refl,
)

pub length-record_of_eq :
    (s : Str) → length (record_of s) ≡ length (decimal (length s)) + length s + 2
unfolding record_of
length-record_of_eq s = omega (
  arith,
  length-append {0} (decimal (length s)) (newline ∷ (s ++ newline ∷ [])),
  length-append {0} s (newline ∷ []),
)

pub length-record_of : (s : Str) → length s < 2 ^ 31 → length (record_of s) ≤ 12 + length s
length-record_of s h = omega (arith, length-record_of_eq s, length-decimal (length s) h)

record_of-append :
    (s rest : Str) → record_of s ++ rest ≡ decimal (length s) ++ newline ∷ (s ++ newline ∷ rest)
unfolding record_of
record_of-append s rest = simp append_assoc

pub at-drop : (s : Str) (i : ℕ) → at s i ≡ at (drop i s) 0
at-drop s zero = refl
at-drop [] (suc i) = refl
at-drop (x ∷ s) (suc i) = at-drop s i

drop-append_more : (xs ys : Str) (n k : ℕ) → n ≡ length xs + k → drop n (xs ++ ys) ≡ drop k ys
drop-append_more xs ys n k e =
    let e' : n - length xs ≡ k = omega arith in
    drop-append_ge xs ys n (omega arith) ∙ ap (λ j. drop j ys) e'

-- A record at the front of a text: where its header ends, what it says, and what stands behind.
pub record IsRecord (head s rest : Str) : Type 0 where
  pub line : memchr head newline ≡ some (length (decimal (length s)))
  pub value : header_value head (length (decimal (length s))) ≡ some (length s)
  pub body : drop (length (decimal (length s)) + 1) head ≡ s ++ newline ∷ rest
  pub behind : drop (length (decimal (length s)) + 1 + length s) head ≡ newline ∷ rest

IsRecord-written :
    (s rest : Str)
    → length s < 2 ^ 31
    → IsRecord (decimal (length s) ++ newline ∷ (s ++ newline ∷ rest)) s rest
IsRecord-written s rest h =
    let n = length (decimal (length s)) in
    let tail = s ++ newline ∷ rest in
    let (found, read) = header_written (length s) tail h in
    let body : drop (n + 1) (decimal (length s) ++ newline ∷ tail) ≡ tail =
      drop-append_more (decimal (length s)) (newline ∷ tail) (n + 1) 1 refl in
    record {
      line = found;
      value = read;
      body = body;
      behind =
          sym (
            drop-drop (length s) (n + 1) (n + 1 + length s) (decimal (length s) ++ newline ∷ tail)
              (omega arith))
          ∙ ap (drop (length s)) body
          ∙ drop-append_length s (newline ∷ rest) (length s) refl;
    }

pub record_of-IsRecord :
    (head s rest : Str) → length s < 2 ^ 31 → head ≡ record_of s ++ rest → IsRecord head s rest
record_of-IsRecord head s rest h e =
    subst (λ x. IsRecord x s rest) (sym (e ∙ record_of-append s rest)) (IsRecord-written s rest h)

-- A record begins with a digit.
pub record_of-digit : (s rest : Str) → is_digit (at (record_of s ++ rest) 0) ≡ true
record_of-digit s rest =
    ap (λ x. is_digit (at x 0)) (record_of-append s rest)
    ∙ first_digit (decimal (length s)) (newline ∷ (s ++ newline ∷ rest)) (decimal-pos (length s))
        (decimal-AllDigits (length s))
