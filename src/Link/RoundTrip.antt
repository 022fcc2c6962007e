-- ===== src/Link/RoundTrip.antt =====
-- `Link::parse` reads the packets that `Link::send` writes (server-5204/link.cpp).
use expert_spoon.Prelude.{
  ℕ, ◌+◌, ◌-◌, ◌≤◌, ◌≡◌, refl, sym, ap, ◌∙◌, true, false, List, [], ◌∷◌, ◌++◌, Str, arith, newline,
  lt→leb, int_limit, All, length, length-append, drop, append_assoc, append-nil, drop-append_length,
  subst,
}
use expert_spoon.Prelude.Decimal.{is_digit}
use expert_spoon.Framing.{at, record_of, length-record_of_eq, length-record_of, record_of-digit}
use expert_spoon.Buffer.{
  Buffer, Allocator, appended, contents, space, put, decr, is_empty, append_record, append_char,
  store,
}
use expert_spoon.Buffer.Window.{
  IsValid, length-contents, contents-decr, decr-IsValid, contents-put, put-IsValid,
}
use expert_spoon.Buffer.Reserve.{reserve_enough}
use expert_spoon.Link.{Link, max_packet_size}
use expert_spoon.Link.Parse.{
  done, returns, is_blank, skip_blank, scan_records, scan_input, finish, parse,
}
use expert_spoon.Link.Packet.{records_of, packet_of, scan-packet}
use expert_spoon.Link.Send.{buffer_of, append_records, append_packet, send_bytes}

digit_skip : (s : Str) → is_digit (at s 0) ≡ true → skip_blank s ≡ 0
unfolding skip_blank
digit_skip [] h = refl
digit_skip (c ∷ s) h = ground arith

skip_blank-append :
    (blanks s : Str)
    → All (λ c. is_blank c ≡ true) blanks
    → skip_blank s ≡ 0
    → skip_blank (blanks ++ s) ≡ length blanks
unfolding skip_blank
skip_blank-append [] s h e = e
skip_blank-append (c ∷ blanks) s h e = ground (arith, skip_blank-append blanks s h.1 e)

length-records_of : (ms : List Str) → length ms ≤ length (records_of ms)
length-records_of [] = omega arith
length-records_of (m ∷ ms) = omega (
  arith,
  length-append {0} (record_of m) (records_of ms),
  length-record_of_eq m,
  length-records_of ms,
)

-- The loop on a packet behind blank lines.
scan_input-packet :
    (blanks : Str) (m : Str) (ms : List Str) (rest : Str)
    → All (λ c. is_blank c ≡ true) blanks
    → length blanks + length (records_of (m ∷ ms)) ≤ max_packet_size
    → scan_input (blanks ++ (records_of (m ∷ ms) ++ newline ∷ rest))
      ≡ done (length blanks + length (records_of (m ∷ ms)) + 1) (m ∷ ms)
unfolding scan_input
scan_input-packet blanks m ms rest hb h =
    let text = records_of (m ∷ ms) ++ newline ∷ rest in
    let shape = append_assoc (record_of m) (records_of ms) (newline ∷ rest) in
    let skipped : skip_blank (blanks ++ text) ≡ length blanks = skip_blank-append blanks text hb (
      ap skip_blank shape
      ∙ digit_skip (record_of m ++ (records_of ms ++ newline ∷ rest))
          (record_of-digit m (records_of ms ++ newline ∷ rest))) in
    ap (λ n. scan_records (length (drop n (blanks ++ text)) + 1) (drop n (blanks ++ text)) n [])
      skipped
    ∙ ap (λ x. scan_records (length x + 1) x (length blanks) [])
        (drop-append_length blanks text (length blanks) refl)
    ∙ scan-packet (m ∷ ms) (length text + 1) rest (length blanks) []
        (omega (
          arith,
          length-records_of (m ∷ ms),
          length-append {0} (records_of (m ∷ ms)) (newline ∷ rest),
        ))
        h

parse_done :
    (a : Allocator) (l : Link) (n : ℕ) (ms : List Str)
    → is_empty l.input ≡ false
    → scan_input (contents l.input) ≡ done n ms
    → parse a l ≡ (returns ms, record l { input = decr n l.input; recv_data = ms })
unfolding parse finish
parse_done a l n ms e d = rw (e, d) refl

not_empty : (b : Buffer) → 1 ≤ b.size_ → is_empty b ≡ false
not_empty b h = ground arith

-- `parse` returns a packet that stands behind any run of blank line bytes, if both together do not
-- pass the packet limit; `recv_data` holds it, what stands behind it stays in the input, and the
-- input is valid.
pub parse-packet :
    (a : Allocator) (l : Link) (blanks m : Str) (ms : List Str) (rest : Str)
    → IsValid l.input
    → All (λ c. is_blank c ≡ true) blanks
    → length blanks + length (records_of (m ∷ ms)) ≤ max_packet_size
    → contents l.input ≡ blanks ++ (packet_of (m ∷ ms) ++ rest)
    → ((parse a l).0 ≡ returns (m ∷ ms))
      × ((parse a l).1.recv_data ≡ m ∷ ms)
      × (contents (parse a l).1.input ≡ rest)
      × IsValid (parse a l).1.input
parse-packet a l blanks m ms rest v hb h e =
    let recs = records_of (m ∷ ms) in
    let k : ℕ = length blanks + length recs + 1 in
    let whole = e ∙ ap (λ x. blanks ++ x) (append_assoc recs (newline ∷ []) rest) in
    let regrouped = e ∙ sym (append_assoc blanks (packet_of (m ∷ ms)) rest) in
    let len : length (blanks ++ packet_of (m ∷ ms)) ≡ k = omega (
      arith,
      length-append {0} blanks (packet_of (m ∷ ms)),
      length-append {0} recs (newline ∷ []),
    ) in
    let size : l.input.size_ ≡ k + length rest = omega (
      arith,
      length-contents l.input v,
      ap length regrouped,
      length-append {0} (blanks ++ packet_of (m ∷ ms)) rest,
    ) in
    let found = ap scan_input whole ∙ scan_input-packet blanks m ms rest hb h in
    rw (parse_done a l k (m ∷ ms) (not_empty l.input (omega arith)) found) (
      refl,
      refl,
      contents-decr k l.input (omega arith)
          ∙ ap (drop k) regrouped
          ∙ drop-append_length (blanks ++ packet_of (m ∷ ms)) rest k (sym len),
      decr-IsValid k l.input (omega arith) v,
    )

-- The room that `append_record` asks for, over a packet.
abbrev pub room_for : List Str → ℕ
room_for [] = 1
room_for (m ∷ ms) = 17 + length m + room_for ms

module _ (a : Allocator) where
  append_record_room :
      (s : Str) (b : Buffer)
      → IsValid b
      → 17 + length s ≤ space b
      → append_record a s b ≡ appended (length (record_of s)) (put (record_of s) b)
  unfolding append_record
  append_record_room s b v h =
      rw (lt→leb int_limit (16 + length s + 1) (omega (arith, v.small)))
        (ap (store (record_of s)) (reserve_enough a (16 + length s + 1) 18 b (ground arith)))

  append_char_room :
      (c : ℕ) (b : Buffer) → 1 ≤ space b → append_char a c b ≡ appended 1 (put (c ∷ []) b)
  unfolding append_char
  append_char_room c b h = ap (store (c ∷ [])) (reserve_enough a 1 18 b (ground arith))

  space-put : (bytes : Str) (b : Buffer) → space (put bytes b) ≡ space b - length bytes
  unfolding put
  space-put bytes b = omega arith

  append_records_step :
      (m : Str) (ms : List Str) (b : Buffer)
      → IsValid b
      → 17 + length m ≤ space b
      → append_records a (m ∷ ms) b ≡ append_records a ms (put (record_of m) b)
  unfolding append_records
  append_records_step m ms b v h =
      ap (λ r. append_records a ms (buffer_of b r)) (append_record_room m b v h)

  -- Records appended where there is room for them.
  abbrev Filled : Buffer → List Str → Buffer → Type 0
  Filled b ms c = IsValid c × (contents c ≡ contents b ++ records_of ms) × (1 ≤ space c)

  records_room :
      (ms : List Str) (b : Buffer)
      → IsValid b
      → room_for ms ≤ space b
      → Filled b ms (append_records a ms b)
  records_room [] b v h = unfold append_records in (v, sym (append-nil (contents b)), h)
  records_room (m ∷ ms) b v h =
      let size = length-record_of_eq m in
      let c = put (record_of m) b in
      let fits = length-record_of m (omega (arith, v.small)) in
      let (w, e, r) =
        records_room ms c (put-IsValid (record_of m) b v (omega arith))
          (omega (arith, space-put (record_of m) b)) in
      subst (Filled b (m ∷ ms)) (sym (append_records_step m ms b v (omega arith))) (
        w,
        e
            ∙ ap (λ x. x ++ records_of ms) (contents-put (record_of m) b v)
            ∙ append_assoc (contents b) (record_of m) (records_of ms),
        r,
      )

  -- Where the output is valid and has room for every record's reservation, `send` writes the packet
  -- behind what is there, whatever the heap does, and the output stays valid.
  pub contents-send_bytes :
      (ms : List Str) (l : Link)
      → IsValid l.output
      → room_for ms ≤ space l.output
      → (contents (send_bytes a ms l).output ≡ contents l.output ++ packet_of ms)
        × IsValid (send_bytes a ms l).output
  unfolding send_bytes
  contents-send_bytes ms l v h =
      let (w, e, r) = records_room ms l.output v h in
      let c = append_records a ms l.output in
      let written : append_packet a ms l.output ≡ put (newline ∷ []) c =
        unfold append_packet in ap (buffer_of c) (append_char_room newline c r) in
      rw written (
        contents-put (newline ∷ []) c w
            ∙ ap (λ x. x ++ newline ∷ []) e
            ∙ append_assoc (contents l.output) (records_of ms) (newline ∷ []),
        put-IsValid (newline ∷ []) c w r,
      )

  -- A packet of at least one record that `send` writes to an empty output, in which there is room
  -- for it, is what `parse` returns at the other end, where the input begins with the bytes sent and
  -- the records' text does not pass the packet limit. What came behind the packet stays in the
  -- input.
  pub parse-send_bytes :
      (m : Str) (ms : List Str) (from to : Link) (rest : Str)
      → IsValid from.output
      → contents from.output ≡ []
      → room_for (m ∷ ms) ≤ space from.output
      → length (records_of (m ∷ ms)) ≤ max_packet_size
      → IsValid to.input
      → contents to.input ≡ contents (send_bytes a (m ∷ ms) from).output ++ rest
      → ((parse a to).0 ≡ returns (m ∷ ms)) × (contents (parse a to).1.input ≡ rest)
  parse-send_bytes m ms from to rest v empty space_left fits w e =
      let (sent, _) = contents-send_bytes (m ∷ ms) from v space_left in
      let arrived : contents to.input ≡ [] ++ (packet_of (m ∷ ms) ++ rest) =
        e ∙ ap (λ x. x ++ rest) (sent ∙ ap (λ x. x ++ packet_of (m ∷ ms)) empty) in
      let (got, _, left, _) = parse-packet a to [] m ms rest w tt (omega arith) arrived in
      (got, left)
