-- ===== src/Buffer/ReadRecord.antt =====
-- `Buffer::read_record` (bytes.cpp): reading one length-prefixed record from the window's front.
use mathlib.Core.Path.{ap₂}
use expert_spoon.Prelude.{
  take-take, take-append_length, ℕ, ◌+◌, ◌-◌, ◌≤◌, ◌<◌, ◌≡◌, refl, sym, ap, ◌∙◌, none, some, ◌∷◌,
  ◌++◌, Str, arith, leb, ◌==◌, if◌then◌else◌, newline, carriage_return, length, take, drop,
  int_limit, length-append,
}
use expert_spoon.Framing.{
  memchr, at, header_value, record_of, record_of-IsRecord, at-drop, length-record_of_eq,
}
use expert_spoon.Prelude.Decimal.{decimal}
use expert_spoon.Buffer.{Buffer, contents}
use expert_spoon.Buffer.Window.{IsValid, length-contents}

-- 1 with the record, 0, -1, and a sum of two `int`s that no `int` holds.
pub data ReadRecord : Type 0 where
  record_read : Str → Buffer → ReadRecord
  not_ready : ReadRecord
  malformed : ReadRecord
  overflow : ReadRecord

-- `this->size_ -= n`, and the body as a `Bytes`.
take_record : Buffer → ℕ → ℕ → ℕ → ReadRecord
take_record b head_len body_len n =
    record_read (take body_len (drop head_len (contents b))) (record b { size_ = b.size_ - n })

read_crlf : Buffer → ℕ → ℕ → ReadRecord
unfolding take_record
read_crlf b head_len body_len =
    if leb int_limit (head_len + body_len + 2)
    then overflow
    else if leb (head_len + body_len + 2) b.size_
    then (if at (contents b) (head_len + body_len + 1) == newline
        then take_record b head_len body_len (head_len + body_len + 2)
        else malformed)
    else not_ready

read_body : Buffer → ℕ → ℕ → ReadRecord
unfolding take_record read_crlf
read_body b head_len body_len =
    let p = at (contents b) (head_len + body_len) in
    if leb int_limit (head_len + body_len + 1)
    then overflow
    else if leb (head_len + body_len + 1) b.size_
    then (if p == newline
        then take_record b head_len body_len (head_len + body_len + 1)
        else if p == carriage_return
        then read_crlf b head_len body_len
        else malformed)
    else not_ready

read_line : Buffer → ℕ → ReadRecord
unfolding read_body
read_line b n = elim (header_value (contents b) n) [
  | none ↦ malformed
  | some body_len ↦ read_body b (n + 1) body_len
]

unfoldable pub read_record : Buffer → ReadRecord
unfolding read_line memchr header_value
read_record b = elim (memchr (contents b) newline) [ none ↦ not_ready | some n ↦ read_line b n ]

read_record-at :
    (b : Buffer) (n body_len : ℕ)
    → memchr (contents b) newline ≡ some n
    → header_value (contents b) n ≡ some body_len
    → at (contents b) (n + 1 + body_len) ≡ newline
    → n + 1 + body_len + 1 ≤ b.size_
    → b.size_ < int_limit
    → read_record b ≡ take_record b (n + 1) body_len (n + 1 + body_len + 1)
unfolding read_record
read_record-at b n body_len found read sep fits small = ground arith

shrunk : Buffer → ℕ → Buffer
shrunk b n = record b { size_ = b.size_ - n }

contents-shrunk : (b : Buffer) (n : ℕ) → contents (shrunk b n) ≡ take (b.size_ - n) (contents b)
unfolding shrunk
contents-shrunk b n = sym (take-take (b.size_ - n) b.size_ (drop b.data_ b.memory) (omega arith))

module _ (b : Buffer) (s rest : Str) (v : IsValid b) (e : contents b ≡ record_of s ++ rest) where
  size-record : b.size_ ≡ length (record_of s) + length rest
  size-record = sym (length-contents b v) ∙ ap length e ∙ length-append (record_of s) rest

  record_small : length s < int_limit
  record_small = omega (arith, size-record, length-record_of_eq s, v.small, v.fits)

  read_front : read_record b ≡ record_read s (shrunk b (length (record_of s)))
  unfolding take_record shrunk
  read_front =
      let n = length (decimal (length s)) in
      let r = record_of-IsRecord (contents b) s rest record_small e in
      let sum : n + 1 + length s + 1 ≡ length (record_of s) =
        omega (arith, length-record_of_eq s) in
      read_record-at b n (length s) r.line r.value
        (at-drop (contents b) (n + 1 + length s) ∙ ap (λ x. at x 0) r.behind)
        (omega (arith, sum, size-record)) (omega (arith, v.small, v.fits))
      ∙ ap₂ (λ body k. record_read body (shrunk b k))
          (ap (take (length s)) r.body ∙ take-append_length s (newline ∷ rest) (length s) refl) sum

-- `read_record` on a valid buffer that begins with a record returns its body. It then cuts the
-- window at its end: what is left are the first bytes of the old contents, the record just read
-- among them.
pub read_record-record_of :
    (b : Buffer) (s rest : Str)
    → IsValid b
    → contents b ≡ record_of s ++ rest
    → (c : Buffer) × (read_record b ≡ record_read s c)
      × (contents c ≡ take (length rest) (record_of s ++ rest))
read_record-record_of b s rest v e =
    let left : b.size_ - length (record_of s) ≡ length rest =
      omega (arith, size-record b s rest v e) in
    (
      shrunk b (length (record_of s)),
      read_front b s rest v e,
      contents-shrunk b (length (record_of s)) ∙ ap₂ take left e,
    )
