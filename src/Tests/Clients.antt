-- ===== src/Tests/Clients.antt =====
-- The waiting calls of class Link on a short output.
use expert_spoon.Prelude.{
  ◌≡◌, refl, List, Str, [], ◌∷◌, ◌++◌, true, false, none, some, arith, length, replicate,
}
use expert_spoon.Prelude.Decimal.{decimal}
use expert_spoon.Buffer
use expert_spoon.Buffer.{Buffer, contents}
use expert_spoon.Buffer.Window.{IsValid}
use expert_spoon.Link.{Link}
use expert_spoon.Link.Packet.{packet_of}
use expert_spoon.Link.Send.{send_bytes}
use expert_spoon.Link.Socket.{
  Departure, accepted, write_interrupted, write_would_block, write, write_buffer, grow_initial,
  drain,
}
use expert_spoon.Link.Client.{flush, request, still_waiting, sent_all}
use expert_spoon.Link.Client.Flushing.{request-wire}
use expert_spoon.Link.Client.Rounds.{flush_ends}
use expert_spoon.Tests.Heap.{heap}

-- A connection with `s` in an output of 64 bytes.
abbrev sending : Str → Link
sending s = record {
  sock = some 5;
  noblock_ = true;
  error_ = false;
  recv_data = [];
  remote_ip = [];
  remote_port = none;
  auth = false;
  ignore_key_range = false;
  input = record { memory = replicate 64 0; data_ = 0; size_ = 0; total_ = 64; origin_total = 64 };
  output = record {
    memory = s ++ replicate 61 0;
    data_ = 0;
    size_ = length s;
    total_ = 64;
    origin_total = 64;
  };
  imsg_q = [];
  omsg_q = [];
}

abbrev three : Link
three = sending (1 ∷ 2 ∷ 3 ∷ [])

three-IsValid : IsValid three.output
three-IsValid = record { fits = omega arith; allocated = refl; small = omega arith }

abbrev slowly : List Departure
slowly = accepted 1 ∷ write_would_block ∷ write_interrupted ∷ accepted 1 ∷ []

flush_runs : (flush heap 5 slowly three).result ≡ still_waiting
unfolding flush write write_buffer grow_initial drain Buffer.decr Buffer.nice
flush_runs = refl

flush_ends_example : (flush heap 5 slowly three).rest ≡ []
flush_ends_example = flush_ends heap 5 slowly three flush_runs (omega arith)

abbrev one_record : List Str
one_record = (7 ∷ []) ∷ []

request_flushes :
    (flush heap 2 (accepted 100 ∷ []) (send_bytes heap one_record three)).result ≡ sent_all 8
unfolding flush write write_buffer grow_initial drain Buffer.decr Buffer.nice send_bytes decimal
request_flushes = refl

request-wire_example :
    (request heap 2 1 one_record (accepted 100 ∷ []) [] three).2
    ≡ contents three.output ++ packet_of one_record
request-wire_example =
    request-wire heap 2 1 one_record (accepted 100 ∷ []) [] three 8 three-IsValid (omega arith)
      request_flushes
