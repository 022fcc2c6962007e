-- ===== src/Mtcp/Serve.antt =====
-- HandleReadEvent (mtcp_kvstore/kvstore.c) over kvstorelib: a request that arrives whole is answered.
use expert_spoon.Prelude.{
  ℕ, ◌+◌, ◌≤◌, ◌≡◌, refl, sym, ap, ◌∙◌, Bool, true, ◌&&◌, inl, inr, Option, none, some, List, [],
  ◌++◌, Str, arith, ◌==◌, length, take, get_or, length-append, take-append_length, Bool-cases,
}
use expert_spoon.Kvstore
use expert_spoon.Kvstore.{
  CuckooMap, Message, Pointer, live, Processed, is_operation, kvstore_process_packet, same_key,
  is_some, or_else, get, delete, put,
}
use expert_spoon.Kvstore.Table.{Table, process-Answers, reply_to, table_after, succeeds, written}
use expert_spoon.Mtcp.{
  Read, Write, read_loop, filled, write_loop, all_sent, encode, content_len, Thread, Handled,
  handled, answered, send_reply, handle_packet, handle_read_event,
}
use expert_spoon.Mtcp.Wire.{IsWire, length-encode, decode-encode}
use expert_spoon.Mtcp.Loops.{
  ReadsGoOn, WritesGoOn, pending, capacity, read_loop-Reads, write_loop-Sends,
}

-- Every value of a table fills its array.
abbrev pub Sized : Table → Type 0
Sized t = (k v : Str) → t k ≡ some v → length v ≡ 32

keepalive_byte : (m : Message) → get_or (encode m) 1 0 ≡ m.keepalive
unfolding encode
keepalive_byte m = refl

-- The reply fills its arrays, if the request and the table do.
value_size : (m : Message) (t : Table) → IsWire m → Sized t → length (reply_to m t).value ≡ 32
value_size m t w s = elim (Bool-cases (m.operation == get)) [
  | inr e ↦ rw e w.value_size
  | inl e ↦ rw e (found (t m.key) refl)
]
  where
    found : (o : Option Str) → t m.key ≡ o → length (or_else o m.value) ≡ 32
    found none e = w.value_size
    found (some v) e = s m.key v e

reply-IsWire : (m : Message) (t : Table) → IsWire m → Sized t → IsWire (reply_to m t)
reply-IsWire m t w s = record { key_size = w.key_size; value_size = value_size m t w s }

written-Sized :
    (m : Message) (t : Table) (v : Str) → IsWire m → Sized t → written m t ≡ some v → length v ≡ 32
written-Sized m t v w s e = elim (Bool-cases (m.operation == get)) [
  | inl g ↦ s m.key v (rw g at e)
  | inr g ↦ elim (Bool-cases (m.operation == delete)) [
    | inl d ↦ absurd (nothing (rw (g, d) at e))
    | inr d ↦ stored (rw (g, d) at e)
  ]
]
  where
    nothing : none ≡ some v → ⊥
    nothing p = cc

    stored : some m.value ≡ some v → length v ≡ 32
    stored p = ap length (sym same) ∙ w.value_size
      where
        same : m.value ≡ v
        same = cc

-- So the table after a request fills its arrays too.
table_after-Sized : (m : Message) (t : Table) → IsWire m → Sized t → Sized (table_after m t)
table_after-Sized m t w s k v e = elim (Bool-cases (succeeds m t && same_key m.key k)) [
  | inl b ↦ written-Sized m t v w s (rw b at e)
  | inr b ↦ s k v (rw b at e)
]

module _ (c : CuckooMap) where
  read_whole :
      (rs : List Read) (m : Message) (more : Str)
      → IsWire m
      → ReadsGoOn rs
      → pending rs ≡ encode m ++ more
      → (rest : List Read) × (read_loop rs [] ≡ filled (encode m) rest)
  read_whole rs m more w g e =
      let size = length-encode m w in
      let enough : content_len ≤ length (pending rs) =
        omega (arith, ap length e, length-append {0} (encode m) more, size) in
      let r = read_loop-Reads rs [] g (omega arith) (omega (arith, enough)) in
      let packet : r.packet ≡ encode m =
        sym (take-append_length r.packet (pending r.rest) content_len (sym r.size))
        ∙ ap (take content_len) (r.stream ∙ e)
        ∙ take-append_length (encode m) more content_len (sym size) in
      (r.rest, r.ends ∙ ap (λ b. filled b r.rest) packet)

  handle_packet-replied :
      (m : Message) (ws : List Write) (sockid : ℕ) (t : Thread c) (b : Bool) (r : Message)
      (p : Pointer c)
      → IsWire m
      → kvstore_process_packet c m t.store ≡ Kvstore.replied b r p
      → handle_packet c (encode m) ws sockid t
        ≡ send_reply c m.keepalive (encode r) ws sockid (record t { store = p })
  unfolding handle_packet
  handle_packet-replied m ws sockid t b r p w e =
      rw (decode-encode m w, e, keepalive_byte m, handle_packet) refl

  send_reply-sent :
      (keepalive : ℕ) (reply : Str) (ws : List Write) (sockid : ℕ) (t : Thread c)
      → WritesGoOn ws
      → length reply ≤ capacity ws
      → send_reply c keepalive reply ws sockid t
        ≡ handled keepalive reply (answered c keepalive sockid t)
  send_reply-sent keepalive reply ws sockid t g h =
      let s = write_loop-Sends ws reply [] g h in sent s.rest s.ends
    where
      sent :
          (rest : List Write)
          → write_loop ws reply [] ≡ all_sent reply rest
          → send_reply c keepalive reply ws sockid t
            ≡ handled keepalive reply (answered c keepalive sockid t)
      sent rest e = unfold send_reply in rw (e, send_reply) refl

  handle_read_event-filled :
      (rs : List Read) (ws : List Write) (sockid : ℕ) (t : Thread c) (buf : Str) (rest : List Read)
      → read_loop rs [] ≡ filled buf rest
      → handle_read_event c rs ws sockid t
        ≡ handle_packet c buf ws sockid (record t { num_pkts_recvd = t.num_pkts_recvd + 1 })
  unfolding handle_read_event
  handle_read_event-filled rs ws sockid t buf rest e = rw (e, handle_read_event) refl

  -- What a request `m` on socket `sockid` leads to, at the store `s`.
  pub record Serves (m : Message) (s : c.Map) (sockid : ℕ) (t : Thread c) (h : Handled c)
      : Type 0 where
    pub next : c.Map
    pub ends :
        h
        ≡ handled m.keepalive (encode (reply_to m (c.find s))) (
            answered c m.keepalive sockid
              (record t { store = live next; num_pkts_recvd = t.num_pkts_recvd + 1 }))
    pub table : (j : Str) → c.find next j ≡ table_after m (c.find s) j
    pub sized : Sized (c.find next)

  -- A request with a known operation whose 50 bytes mTCP delivers in any pieces, with EAGAIN between
  -- them as often as it likes, on a thread whose store is live and has values of 32 bytes, is
  -- served: HandleReadEvent returns its keepalive byte, having sent the table's reply whole, in
  -- whatever pieces mTCP takes it, if it takes 50 bytes in all; the store after it is the table
  -- after the request, with values of 32 bytes again.
  pub handle_read_event-Serves :
      (m : Message) (more : Str) (s : c.Map) (rs : List Read) (ws : List Write) (sockid : ℕ)
      (t : Thread c)
      → t.store ≡ live s
      → IsWire m
      → is_operation m.operation ≡ true
      → Sized (c.find s)
      → ReadsGoOn rs
      → pending rs ≡ encode m ++ more
      → WritesGoOn ws
      → content_len ≤ capacity ws
      → Serves m s sockid t (handle_read_event c rs ws sockid t)
  handle_read_event-Serves m more s rs ws sockid t e w known sized goes text sends room =
      let (rest, got) = read_whole rs m more w goes text in
      let (next, processed, after) = process-Answers c m s known in
      let reply = reply_to m (c.find s) in
      let counted : Thread c = record t { num_pkts_recvd = t.num_pkts_recvd + 1 } in
      record {
        next = next;
        ends =
            handle_read_event-filled rs ws sockid t (encode m) rest got
            ∙ handle_packet-replied m ws sockid counted (succeeds m (c.find s)) reply (live next) w
                (ap (kvstore_process_packet c m) e ∙ processed)
            ∙ send_reply-sent m.keepalive (encode reply) ws sockid
                (record counted { store = live next }) sends
                (omega (arith, length-encode reply (reply-IsWire m (c.find s) w sized), room));
        table = after;
        sized = λ k v f. table_after-Sized m (c.find s) w sized k v (sym (after k) ∙ f);
      }
