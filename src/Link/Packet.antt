-- ===== src/Link/Packet.antt =====
-- The text of a packet, and one round of `Link::parse` at a record or at the packet's end.
use expert_spoon.Prelude.{
  ℕ, zero, suc, ◌+◌, ◌≤◌, ◌<◌, ◌≡◌, refl, sym, ap, ◌∙◌, true, false, some, List, [], ◌∷◌, ◌++◌, Str,
  arith, newline, length, length-append, take, drop, int_limit, append_assoc, append-nil,
  take-append_length,
}
use expert_spoon.Prelude.Decimal.{decimal, decimal-pos, is_digit}
use expert_spoon.Framing.{
  memchr, at, header_value, record_of, record_of-IsRecord, length-record_of_eq,
}
use expert_spoon.Link.{max_packet_size}
use expert_spoon.Link.Parse.{
  Scan, done, stop, next, is_packet_end, round_end, round_body, round, scan_records,
}

abbrev pub records_of : List Str → Str
records_of [] = []
records_of (m ∷ ms) = record_of m ++ records_of ms

-- What `send` writes for a packet.
abbrev pub packet_of : List Str → Str
packet_of ms = records_of ms ++ newline ∷ []

round_end_record :
    (rest : Str) (parsed : ℕ) (recv : List Str)
    → parsed + 1 ≤ max_packet_size
    → round_end (newline ∷ rest) parsed recv ≡ next rest (parsed + 1) recv
unfolding round_end
round_end_record rest parsed recv h = ground arith

header_digit : (head : Str) (n v : ℕ) → header_value head n ≡ some v → is_digit (at head 0) ≡ true
unfolding header_value
header_digit head n v h = ground arith

digit_no_end :
    (head : Str) (n : ℕ) → 1 ≤ n → is_digit (at head 0) ≡ true → is_packet_end head n ≡ false
unfolding is_packet_end
digit_no_end head n p h = ground arith

pub round_at :
    (head : Str) (parsed : ℕ) (recv : List Str) (n v : ℕ)
    → memchr head newline ≡ some n
    → is_packet_end head n ≡ false
    → header_value head n ≡ some v
    → round head parsed recv ≡ round_body head parsed recv n v
unfolding round
round_at head parsed recv n v found more read = ground arith

round_body_fits :
    (head : Str) (parsed : ℕ) (recv : List Str) (n v : ℕ)
    → n + 1 + v < int_limit
    → n + 1 + v ≤ length head
    → round_body head parsed recv n v
      ≡ round_end
          (drop (n + 1 + v) head)
          (parsed + (n + 1 + v))
          (recv ++ take v (drop (n + 1) head) ∷ [])
unfolding round_body
round_body_fits head parsed recv n v small fits = ground arith

-- A record at the front is taken whole, with its line end.
pub round-record :
    (s rest : Str) (parsed : ℕ) (recv : List Str)
    → parsed + length (record_of s) ≤ max_packet_size
    → round (record_of s ++ rest) parsed recv
      ≡ next rest (parsed + length (record_of s)) (recv ++ s ∷ [])
round-record s rest parsed recv h =
    let head = record_of s ++ rest in
    let n = length (decimal (length s)) in
    let size : n + 1 + length s + 1 ≡ length (record_of s) = omega (arith, length-record_of_eq s) in
    let r = record_of-IsRecord head s rest (omega (arith, size)) refl in
    let sum : parsed + (n + 1 + length s) + 1 ≡ parsed + length (record_of s) =
      omega (arith, size) in
    round_at head parsed recv n (length s) r.line
      (digit_no_end head n (decimal-pos (length s)) (header_digit head n (length s) r.value))
      r.value
    ∙ round_body_fits head parsed recv n (length s) (omega (arith, size))
        (omega (arith, size, length-append {0} (record_of s) rest))
    ∙ ap
        (λ x.
          round_end x (parsed + (n + 1 + length s))
            (recv ++ take (length s) (drop (n + 1) head) ∷ []))
        r.behind
    ∙ ap
        (λ x.
          round_end (newline ∷ rest) (parsed + (n + 1 + length s)) (recv ++ take (length s) x ∷ []))
        r.body
    ∙ ap (λ x. round_end (newline ∷ rest) (parsed + (n + 1 + length s)) (recv ++ x ∷ []))
        (take-append_length s (newline ∷ rest) (length s) refl)
    ∙ round_end_record rest (parsed + (n + 1 + length s)) (recv ++ s ∷ []) (omega (arith, size))
    ∙ ap (λ k. next rest k (recv ++ s ∷ [])) sum

round_packet_end :
    (rest : Str) (parsed : ℕ) (recv : List Str)
    → round (newline ∷ rest) parsed recv ≡ stop (done (parsed + (0 + 1)) recv)
unfolding round
round_packet_end rest parsed recv = ground arith

pub scan_next :
    (fuel : ℕ) (h h' : Str) (p p' : ℕ) (r r' : List Str)
    → round h p r ≡ next h' p' r'
    → scan_records (suc fuel) h p r ≡ scan_records fuel h' p' r'
unfolding scan_records
scan_next fuel h h' p p' r r' e = rw (e, scan_records) refl

pub scan_stop :
    (fuel : ℕ) (h : Str) (p : ℕ) (r : List Str) (o : Scan)
    → round h p r ≡ stop o
    → scan_records (suc fuel) h p r ≡ o
unfolding scan_records
scan_stop fuel h p r o e = rw (e, scan_records) refl

-- The loop takes a whole packet of records.
pub scan-packet :
    (ms : List Str) (fuel : ℕ) (rest : Str) (parsed : ℕ) (recv : List Str)
    → length ms < fuel
    → parsed + length (records_of ms) ≤ max_packet_size
    → scan_records fuel (records_of ms ++ newline ∷ rest) parsed recv
      ≡ done (parsed + length (records_of ms) + 1) (recv ++ ms)
scan-packet ms zero rest parsed recv f h = absurd (omega arith)
scan-packet [] (suc fuel) rest parsed recv f h =
    let e : parsed + (0 + 1) ≡ parsed + 0 + 1 = omega arith in
    scan_stop fuel (newline ∷ rest) parsed recv _ (round_packet_end rest parsed recv)
    ∙ ap (λ k. done k recv) e
    ∙ ap (done (parsed + 0 + 1)) (sym (append-nil recv))
scan-packet (m ∷ ms) (suc fuel) rest parsed recv f h =
    let tail = records_of ms ++ newline ∷ rest in
    let len = length-append {0} (record_of m) (records_of ms) in
    let e : parsed + length (record_of m) + length (records_of ms) + 1
        ≡ parsed + length (record_of m ++ records_of ms) + 1 =
      omega (arith, len) in
    ap (λ x. scan_records (suc fuel) x parsed recv)
      (append_assoc (record_of m) (records_of ms) (newline ∷ rest))
    ∙ scan_next fuel (record_of m ++ tail) tail parsed _ recv _
        (round-record m tail parsed recv (omega (arith, len)))
    ∙ scan-packet ms fuel rest (parsed + length (record_of m)) (recv ++ m ∷ []) (omega arith)
        (omega (arith, len))
    ∙ ap (λ k. done k ((recv ++ m ∷ []) ++ ms)) e
    ∙ ap (done (parsed + length (record_of m ++ records_of ms) + 1)) (append_assoc recv (m ∷ []) ms)
