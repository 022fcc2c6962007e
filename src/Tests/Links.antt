-- ===== src/Tests/Links.antt =====
-- class Link on short packets.
use expert_spoon.Prelude.{
  ◌≡◌, ◌≤◌, ◌+◌, ◌*◌, refl, sym, ap, ◌∙◌, List, Str, [], ◌∷◌, ◌++◌, none, some, false, true, arith,
  length, replicate,
}
use expert_spoon.Buffer.{Buffer, contents, put, overwrite}
use expert_spoon.Buffer.Window.{IsValid}
use expert_spoon.Prelude.Decimal.{decimal, atoi}
use expert_spoon.Framing.{record_of}
use expert_spoon.Link
use expert_spoon.Link.{Link}
use expert_spoon.Link.Parse.{parse, returns}
use expert_spoon.Link.Packet.{packet_of}
use expert_spoon.Link.Send.{send_bytes}
use expert_spoon.Link.Socket.{
  Arrival, got, read_interrupted, read_would_block, Departure, accepted, write_would_block, fill,
}
use expert_spoon.Link.RoundTrip.{parse-packet, contents-send_bytes, parse-send_bytes}
use expert_spoon.Link.Outcome.{Outcome, parse-Outcome}
use expert_spoon.Tests.Heap.{heap}

abbrev holding : Str → Buffer
holding s = record {
  memory = s;
  data_ = 0;
  size_ = length s;
  total_ = length s;
  origin_total = length s;
}

-- A connection whose input holds `s`, with an empty output of 64 bytes.
abbrev link_with : Str → Link
link_with s = record {
  sock = some 5;
  noblock_ = true;
  error_ = false;
  recv_data = [];
  remote_ip = [];
  remote_port = none;
  auth = false;
  ignore_key_range = false;
  input = holding s;
  output = record { memory = replicate 64 0; data_ = 0; size_ = 0; total_ = 64; origin_total = 64 };
  imsg_q = [];
  omsg_q = [];
}

-- An empty line, "get" and "k", and the start of another packet.
abbrev two_words : Str
two_words = 13 ∷ 10 ∷ b'3' ∷ 10 ∷ b'g' ∷ b'e' ∷ b't' ∷ 10 ∷ b'1' ∷ 10 ∷ b'k' ∷ 10 ∷ 10 ∷ b'4' ∷ []

abbrev get_k : List Str
get_k = (b'g' ∷ b'e' ∷ b't' ∷ []) ∷ (b'k' ∷ []) ∷ []

parse_runs : (parse heap (link_with two_words)).0 ≡ returns get_k
unfolding parse Link.Parse.scan_input Link.Parse.finish atoi
parse_runs = refl

two_words-IsValid : IsValid (link_with two_words).input
two_words-IsValid = record { fits = omega arith; allocated = refl; small = omega arith }

two_words_text : two_words ≡ (13 ∷ 10 ∷ []) ++ (packet_of get_k ++ b'4' ∷ [])
unfolding record_of decimal
two_words_text = refl

output-IsValid : IsValid (link_with two_words).output
output-IsValid = record { fits = omega arith; allocated = refl; small = omega arith }

two_words_size :
    2 + length (record_of (b'g' ∷ b'e' ∷ b't' ∷ []) ++ (record_of (b'k' ∷ []) ++ []))
    ≤ 128 * 1024 * 1024
unfolding record_of decimal
two_words_size = omega arith

parse-packet_example :
    ((parse heap (link_with two_words)).0 ≡ returns get_k)
    × ((parse heap (link_with two_words)).1.recv_data ≡ get_k)
    × (contents (parse heap (link_with two_words)).1.input ≡ b'4' ∷ [])
    × IsValid (parse heap (link_with two_words)).1.input
parse-packet_example =
    parse-packet heap (link_with two_words) (13 ∷ 10 ∷ []) (b'g' ∷ b'e' ∷ b't' ∷ [])
      ((b'k' ∷ []) ∷ []) (b'4' ∷ []) two_words-IsValid (refl, (refl, tt)) two_words_size
      two_words_text

-- The packet of "get" and "k" with the start of another behind it.
abbrev received : Link
received = link_with (b'3' ∷ 10 ∷ b'g' ∷ b'e' ∷ b't' ∷ 10 ∷ b'1' ∷ 10 ∷ b'k' ∷ 10 ∷ 10 ∷ b'4' ∷ [])

received-IsValid : IsValid received.input
received-IsValid = record { fits = omega arith; allocated = refl; small = omega arith }

received_text : contents received.input ≡ packet_of get_k ++ b'4' ∷ []
unfolding record_of decimal
received_text = refl

received_size :
    length (record_of (b'g' ∷ b'e' ∷ b't' ∷ []) ++ (record_of (b'k' ∷ []) ++ []))
    ≤ 128 * 1024 * 1024
unfolding record_of decimal
received_size = omega arith

empty_output-IsValid : IsValid (link_with []).output
empty_output-IsValid = record { fits = omega arith; allocated = refl; small = omega arith }

sent_to_empty : contents (send_bytes heap get_k (link_with [])).output ≡ packet_of get_k
sent_to_empty = (contents-send_bytes heap get_k (link_with []) empty_output-IsValid (omega arith)).0

parse-send_bytes_example :
    ((parse heap received).0 ≡ returns get_k) × (contents (parse heap received).1.input ≡ b'4' ∷ [])
parse-send_bytes_example =
    parse-send_bytes heap (b'g' ∷ b'e' ∷ b't' ∷ []) ((b'k' ∷ []) ∷ []) (link_with []) received
      (b'4' ∷ []) empty_output-IsValid refl (omega arith) received_size received-IsValid
      (received_text ∙ sym (ap (λ s. s ++ b'4' ∷ []) (sent_to_empty)))

parse-Outcome_example : Outcome heap received (parse heap received)
parse-Outcome_example = parse-Outcome heap received received-IsValid

abbrev arrivals : List Arrival
arrivals = got (1 ∷ 2 ∷ []) ∷ read_interrupted ∷ got (3 ∷ []) ∷ read_would_block ∷ got (4 ∷ []) ∷ []

empty_output-IsValid' : IsValid received.output
empty_output-IsValid' = record { fits = omega arith; allocated = refl; small = omega arith }

fill_runs : (fill true arrivals received.output 0).ret ≡ 3
unfolding fill put overwrite
fill_runs = refl

abbrev departures : List Departure
departures = accepted 2 ∷ write_would_block ∷ []
