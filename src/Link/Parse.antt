-- ===== src/Link/Parse.antt =====
-- `Link::parse` (server-5204/link.cpp): one packet, a run of length-prefixed records that an empty
-- line ends, taken from the front of the input buffer.
use expert_spoon.Prelude.{
  ℕ, zero, suc, ◌+◌, Bool, ◌&&◌, ◌||◌, Option, none, some, List, [], ◌∷◌, ◌++◌, Str, ltb, leb, ◌==◌,
  if◌then◌else◌, newline, carriage_return, length, take, drop, int_limit,
}
use expert_spoon.Framing.{memchr, at, header_value}
use expert_spoon.Buffer.{Buffer, Allocator, contents, space, is_empty, decr, nice, grow}
use expert_spoon.Link.{Link, max_packet_size}

-- What the loop over the records ends in: NULL; a packet with the bytes that it took; the wait for
-- more bytes; a sum of `int`s that no `int` holds; and fuel that ran out.
pub data Scan : Type 0 where
  bad : List Str → Scan
  done : ℕ → List Str → Scan
  waiting : List Str → Scan
  scan_overflow : Scan
  scan_spent : Scan

-- One round of the loop ends it, or goes on with `head`, `parsed` and `recv_data`.
pub data Round : Type 0 where
  stop : Scan → Round
  next : Str → ℕ → List Str → Round

abbrev pub is_blank : ℕ → Bool
is_blank c = c == newline || c == carriage_return

-- ignore leading empty lines
unfoldable pub skip_blank : Str → ℕ
skip_blank [] = 0
skip_blank (c ∷ s) = if is_blank c then skip_blank s + 1 else 0

-- head_len == 1 || (head_len == 2 && head[0] == '\r'), where head_len = n + 1
unfoldable pub is_packet_end : Str → ℕ → Bool
is_packet_end head n = n == 0 || (n == 1 && at head 0 == carriage_return)

-- The bytes of the line end behind a body, if it is there.
unfoldable pub separator : Str → Option ℕ
separator [] = none
separator (c ∷ s) =
    if c == newline
    then some 1
    else if c == carriage_return && (ltb 0 (length s) && at s 0 == newline)
    then some 2
    else none

-- Behind the body: the line end, and the test of the packet's size.
unfoldable pub round_end : Str → ℕ → List Str → Round
unfolding separator
round_end rest parsed recv = elim (separator rest) [
  | none ↦ stop (waiting recv)
  | some k ↦
      if ltb max_packet_size (parsed + k)
      then stop (bad recv)
      else next (drop k rest) (parsed + k) recv
]

-- The body of `len` bytes behind a header line of `n + 1` bytes.
unfoldable pub round_body : Str → ℕ → List Str → ℕ → ℕ → Round
unfolding round_end
round_body head parsed recv n len =
    if leb int_limit (n + 1 + len)
    then stop scan_overflow
    else if ltb (length head) (n + 1 + len)
    then stop (waiting recv)
    else round_end (drop (n + 1 + len) head) (parsed + (n + 1 + len))
        (recv ++ take len (drop (n + 1) head) ∷ [])

unfoldable pub round_line : Str → ℕ → List Str → ℕ → Round
unfolding is_packet_end header_value round_body
round_line head parsed recv n =
    if is_packet_end head n
    then stop (done (parsed + (n + 1)) recv)
    else elim (header_value head n) [
      | none ↦ stop (bad recv)
      | some len ↦ round_body head parsed recv n len
    ]

-- Where no byte is left there is no newline either, so the loop's test needs no case of its own.
unfoldable pub round : Str → ℕ → List Str → Round
unfolding memchr round_line
round head parsed recv = elim (memchr head newline) [
  | none ↦ stop (waiting recv)
  | some n ↦ round_line head parsed recv n
]

unfoldable pub scan_records : ℕ → Str → ℕ → List Str → Scan
unfolding round
scan_records zero head parsed recv = scan_spent
scan_records (suc fuel) head parsed recv = elim (round head parsed recv) [
  | stop r ↦ r
  | next h p r ↦ scan_records fuel h p r
]

-- `returns` points to `recv_data`, where an empty vector says "not ready"; `null` is the error.
pub data Parsed : Type 0 where
  returns : List Str → Parsed
  null : Parsed
  overflow : Parsed
  spent : Parsed

-- The loop over what stands behind the leading blanks; its rounds are at most its bytes.
unfoldable pub scan_input : Str → Scan
unfolding skip_blank scan_records
scan_input s =
    let n = skip_blank s in let head = drop n s in scan_records (length head + 1) head n []

module _ (a : Allocator) where
  unfoldable pub make_room : Buffer → Option Buffer
  make_room b =
      let c = nice b in if space b == 0 then (if space c == 0 then grow a c else some c) else some b

  -- not ready: room for more is made, and what was read stays in the buffer
  unfoldable pub wait_more : Link → List Str → Parsed × Link
  wait_more l recv = elim (make_room l.input) [
    | none ↦ (null, record l { input = nice l.input; recv_data = recv })
    | some b ↦ (returns [], record l { input = b; recv_data = [] })
  ]

  unfoldable pub finish : Link → Scan → Parsed × Link
  finish l (bad recv) = (null, record l { recv_data = recv })
  finish l (done n recv) = (returns recv, record l { input = decr n l.input; recv_data = recv })
  finish l (waiting recv) = wait_more l recv
  finish l scan_overflow = (overflow, l)
  finish l scan_spent = (spent, l)

  unfoldable pub parse : Link → Parsed × Link
  parse l =
      let cleared = record l { recv_data = [] } in
      if is_empty l.input
      then (returns [], cleared)
      else finish cleared (scan_input (contents l.input))
