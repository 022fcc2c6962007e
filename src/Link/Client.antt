-- ===== src/Link/Client.antt =====
-- `Link::flush`, `response` and `request` (server-5204/link.cpp): the calls of a client that waits. Their
-- loops end only when the kernel lets them, so each takes the number of rounds that it may make.
pub mod Flushing
pub mod Rounds
use expert_spoon.Prelude.{
  ℕ, zero, suc, ◌+◌, Bool, true, false, Option, none, some, List, [], ◌∷◌, ◌++◌, Str,
}
use expert_spoon.Buffer.{Allocator, is_empty}
use expert_spoon.Link.{Link}
use expert_spoon.Link.Parse.{Parsed, returns, null, overflow, spent, parse}
use expert_spoon.Link.Send.{send_bytes}
use expert_spoon.Link.Socket.{Arrival, Departure, read, write}

-- What `flush` returns: the bytes sent, -1, or nothing yet after so many rounds.
pub data Flushed : Type 0 where
  sent_all : ℕ → Flushed
  flush_failed : Flushed
  still_waiting : Flushed

pub record Flush : Type 0 where
  pub result : Flushed
  pub link : Link
  pub wire : Str
  pub rest : List Departure

abbrev pub add_len : ℕ → Flushed → Flushed
add_len n (sent_all m) = sent_all (n + m)
add_len n flush_failed = flush_failed
add_len n still_waiting = still_waiting

-- the rounds behind a `write` that sent `n` bytes
abbrev pub behind : ℕ → Str → Flush → Flush
behind n wire f = record f { result = add_len n f.result; wire = wire ++ f.wire }

-- What `response` returns: a packet, NULL, the sum of `parse` that passes an `int`, or nothing yet.
pub data Answer : Type 0 where
  packet : List Str → Answer
  no_answer : Answer
  answer_overflow : Answer
  no_answer_yet : Answer

module _ (a : Allocator) where
  unfoldable pub flush : ℕ → List Departure → Link → Flush
  flush zero es l = record { result = still_waiting; link = l; wire = []; rest = es }
  flush (suc rounds) es l = elim (is_empty l.output) [
    | true ↦ record { result = sent_all 0; link = l; wire = []; rest = es }
    | false ↦
        let w = write a es l in
        elim w.0 [
          | none ↦ record { result = flush_failed; link = w.1; wire = w.2; rest = w.3 }
          | some n ↦ behind n w.2 (flush rounds w.3 w.1)
        ]
  ]

  unfoldable pub response : ℕ → List Arrival → Link → Answer × Link × List Arrival
  response zero es l = (no_answer_yet, l, es)
  response (suc rounds) es l =
      let m = (parse a l).1 in
      let r = read a es m in
      elim (parse a l).0 [
        | null ↦ (no_answer, m, es)
        | returns (s ∷ resp) ↦ (packet (s ∷ resp), m, es)
        | returns [] ↦ elim r.0 [
          | none ↦ (no_answer, r.1, r.2)
          | some n ↦ elim n [ zero ↦ (no_answer, r.1, r.2) | suc len ↦ response rounds r.2 r.1 ]
        ]
        | overflow ↦ (answer_overflow, m, es)
        | spent ↦ (no_answer_yet, m, es)
      ]

  -- request(s1), …: the records are sent (`send` never returns -1), the output is flushed, and the answer
  -- is waited for. The bytes that went out come with the result.
  unfoldable pub request :
      ℕ → ℕ → List Str → List Departure → List Arrival → Link → Answer × Link × Str
  request flush_rounds rounds s ds es l =
      let f = flush flush_rounds ds (send_bytes a s l) in
      let r = response rounds es f.link in
      elim f.result [
        | sent_all n ↦ (r.0, r.1, f.wire)
        | flush_failed ↦ (no_answer, f.link, f.wire)
        | still_waiting ↦ (no_answer_yet, f.link, f.wire)
      ]
