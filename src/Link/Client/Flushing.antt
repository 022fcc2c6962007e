-- ===== src/Link/Client/Flushing.antt =====
-- `Link::flush` (server-5204/link.cpp): it sends the output, all of it where it returns a length, and it
-- waits no longer than the kernel's answers last.
use expert_spoon.Prelude.{
  ℕ, zero, suc, ◌≤◌, ◌≡◌, refl, sym, ap, subst, ◌∙◌, true, false, inl, inr, Option, none, some,
  List, [], ◌++◌, Str, arith, ==→eq, length, length-append, take, drop, Bool-cases, Option-cases,
  append_assoc, append-nil,
}
use expert_spoon.Buffer.{Buffer, Allocator, contents, is_empty, space}
use expert_spoon.Buffer.Window.{IsValid}
use expert_spoon.Link.{Link}
use expert_spoon.Link.Socket.{Arrival, Departure, write}
use expert_spoon.Link.Transfer.{Writes, write-Writes}
use expert_spoon.Link.Send.{send_bytes}
use expert_spoon.Link.Packet.{packet_of}
use expert_spoon.Link.RoundTrip.{contents-send_bytes, room_for}
use expert_spoon.Link.Client.{
  Flushed, sent_all, flush_failed, still_waiting, Flush, add_len, behind, flush, request,
}

-- A length returned is that of the bytes sent, and nothing is left then.
abbrev pub Ended : Flushed → Str → Str → Type 0
Ended (sent_all n) wire left = (n ≡ length wire) × (left ≡ [])
Ended flush_failed wire left = Unit
Ended still_waiting wire left = Unit

-- What `flush` did to the output of `l`.
pub record Flushes (l : Link) (f : Flush) : Type 0 where
  pub valid : IsValid f.link.output
  pub stream : f.wire ++ contents f.link.output ≡ contents l.output
  pub ended : Ended f.result f.wire (contents f.link.output)

Ended-add_len :
    (n : ℕ) (r : Flushed) (w v left : Str)
    → n ≡ length w
    → Ended r v left
    → Ended (add_len n r) (w ++ v) left
Ended-add_len n (sent_all m) w v left e h = (omega (arith, e, h.0, length-append {0} w v), h.1)
Ended-add_len n flush_failed w v left e h = tt
Ended-add_len n still_waiting w v left e h = tt

contents_empty : (b : Buffer) → is_empty b ≡ true → contents b ≡ []
contents_empty b h = ap (λ n. take n (drop b.data_ b.memory)) (==→eq b.size_ 0 h)

module _ (a : Allocator) where
  pub flush-empty :
      (rounds : ℕ) (es : List Departure) (l : Link)
      → is_empty l.output ≡ true
      → flush a (suc rounds) es l ≡ record { result = sent_all 0; link = l; wire = []; rest = es }
  unfolding flush
  flush-empty rounds es l h = rw (h, flush) refl

  pub flush-failed :
      (rounds : ℕ) (es : List Departure) (l : Link)
      → is_empty l.output ≡ false
      → (write a es l).0 ≡ none
      → flush a (suc rounds) es l ≡ record {
        result = flush_failed;
        link = (write a es l).1;
        wire = (write a es l).2;
        rest = (write a es l).3;
      }
  unfolding flush
  flush-failed rounds es l h e = rw (h, e, flush) refl

  pub flush-round :
      (rounds : ℕ) (es : List Departure) (l : Link) (n : ℕ)
      → is_empty l.output ≡ false
      → (write a es l).0 ≡ some n
      → flush a (suc rounds) es l
        ≡ behind n (write a es l).2 (flush a rounds (write a es l).3 (write a es l).1)
  unfolding flush
  flush-round rounds es l n h e = rw (h, e, flush) refl

  -- The parts of a `write`.
  write_kept :
      (es : List Departure) (l : Link) (r : Option ℕ)
      → IsValid l.output
      → (write a es l).0 ≡ r
      → IsValid (write a es l).1.output
        × ((write a es l).2 ++ contents (write a es l).1.output ≡ contents l.output)
  write_kept es l r v e = kept (write a es l).0 (write-Writes a es l v)
    where
      kept :
          (o : Option ℕ)
          → Writes l.output (o, (write a es l).1.output, (write a es l).2, (write a es l).3)
          → IsValid (write a es l).1.output
            × ((write a es l).2 ++ contents (write a es l).1.output ≡ contents l.output)
      kept none h = h
      kept (some n) h = (h.0, h.1)

  write_counted :
      (es : List Departure) (l : Link) (n : ℕ)
      → IsValid l.output
      → (write a es l).0 ≡ some n
      → n ≡ length (write a es l).2
  write_counted es l n v e =
      let w : Writes l.output
          (some n, (write a es l).1.output, (write a es l).2, (write a es l).3) =
        subst
          (λ o. Writes l.output (o, (write a es l).1.output, (write a es l).2, (write a es l).3)) e
          (write-Writes a es l v) in
      w.2

  -- Whatever the kernel answers and however many rounds it makes, `flush` on a valid output sends a
  -- front part of it and keeps the rest, in a valid buffer; where it returns a length, that is the
  -- number of bytes sent, and nothing is left.
  pub flush-Flushes :
      (rounds : ℕ) (es : List Departure) (l : Link)
      → IsValid l.output
      → Flushes l (flush a rounds es l)
  flush-Flushes zero es l v = unfold flush in record { valid = v; stream = refl; ended = tt }
  flush-Flushes (suc rounds) es l v = elim (Bool-cases (is_empty l.output)) [
    | inl h ↦
        subst (Flushes l) (sym (flush-empty rounds es l h))
          (record { valid = v; stream = refl; ended = (refl, contents_empty l.output h) })
    | inr h ↦ elim (Option-cases (write a es l).0) [
      | inl e ↦
          let (w, s) = write_kept es l none v e in
          subst (Flushes l) (sym (flush-failed rounds es l h e))
            (record { valid = w; stream = s; ended = tt })
      | inr (n, e) ↦
          let (w, s) = write_kept es l (some n) v e in
          let r = flush-Flushes rounds (write a es l).3 (write a es l).1 w in
          let f = flush a rounds (write a es l).3 (write a es l).1 in
          subst (Flushes l) (sym (flush-round rounds es l n h e)) (record {
            valid = r.valid;
            stream =
                append_assoc (write a es l).2 f.wire (contents f.link.output)
                ∙ ap (λ x. (write a es l).2 ++ x) r.stream
                ∙ s;
            ended =
                Ended-add_len n f.result (write a es l).2 f.wire (contents f.link.output)
                  (write_counted es l n v e) r.ended;
          })
    ]
  ]

  request-sent :
      (flush_rounds rounds : ℕ) (s : List Str) (ds : List Departure) (es : List Arrival) (l : Link)
      (n : ℕ)
      → (flush a flush_rounds ds (send_bytes a s l)).result ≡ sent_all n
      → (request a flush_rounds rounds s ds es l).2
        ≡ (flush a flush_rounds ds (send_bytes a s l)).wire
  unfolding request
  request-sent flush_rounds rounds s ds es l n h = rw (h, request) refl

  all_sent :
      (l : Link) (f : Flush) (n : ℕ)
      → Flushes l f
      → f.result ≡ sent_all n
      → f.wire ≡ contents l.output
  all_sent l f n r h =
      let (_, none_left) : Ended (sent_all n) f.wire (contents f.link.output) =
        subst (λ x. Ended x f.wire (contents f.link.output)) h r.ended in
      sym (append-nil f.wire) ∙ ap (λ x. f.wire ++ x) (sym none_left) ∙ r.stream

  -- Where the output is valid and has room for the records, a `request` whose `flush` returns a
  -- length has sent what waited in the output and the packet of the records behind it, and nothing
  -- else.
  pub request-wire :
      (flush_rounds rounds : ℕ) (s : List Str) (ds : List Departure) (es : List Arrival) (l : Link)
      (n : ℕ)
      → IsValid l.output
      → room_for s ≤ space l.output
      → (flush a flush_rounds ds (send_bytes a s l)).result ≡ sent_all n
      → (request a flush_rounds rounds s ds es l).2 ≡ contents l.output ++ packet_of s
  request-wire flush_rounds rounds s ds es l n v h e =
      let (written, w) = contents-send_bytes a s l v h in
      request-sent flush_rounds rounds s ds es l n e
      ∙ all_sent (send_bytes a s l) (flush a flush_rounds ds (send_bytes a s l)) n
          (flush-Flushes flush_rounds ds (send_bytes a s l) w) e
      ∙ written
