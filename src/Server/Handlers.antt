-- ===== src/Server/Handlers.antt =====
-- req_recv, rsp_send and their wrappers (server-5204/msg.cpp, net.cpp): what a connection's client gets,
-- and what it loses.
use expert_spoon.Prelude.{
  ℕ, zero, suc, ◌≤◌, ◌<◌, ◌≡◌, refl, sym, ap, ◌∙◌, Option, none, some, List, [], ◌∷◌, ◌++◌, Str,
  arith, length, length-append, get_or-set_self, ◌^◌,
}
use expert_spoon.Buffer.{Buffer, Allocator, contents, wrap}
use expert_spoon.Buffer.Window.{IsValid, length-contents}
use expert_spoon.Link.{Link, mark_error}
use expert_spoon.Link.Socket.{Arrival, Departure, msg_read, msg_write}
use expert_spoon.Link.Transfer.{msg_read-stream, Writes, write_buffer-Writes}
use expert_spoon.Fde.{Epoll}
use expert_spoon.Server.{
  Handler, message_size, process_msgs, num_msgs, co_ok, Server, link_at, recv_msgs, req_recv, sent,
  send_front, rsp_send, no_link,
}
use expert_spoon.Server.Messages.{joined, AreMessages, respond, length-joined, messages-respond}

module _ (a : Allocator) (k : Epoll) (h : Handler) where
  req_recv-msg_read :
      (es : List Arrival) (conn : ℕ) (s : Server a k h) (msg : Buffer)
      → (msg_read a es (link_at a k h s conn)).0 ≡ some msg
      → req_recv a k h es conn s ≡ recv_msgs a k h conn msg s
  unfolding req_recv
  req_recv-msg_read es conn s msg e = rw (e, req_recv) refl

  few_messages :
      (text : Str) (ms : List Str) (tail : Str)
      → text ≡ joined ms ++ tail
      → AreMessages ms
      → length text ≤ 8192
      → length ms < 2 ^ 16
  few_messages text ms tail e w size =
      omega (arith, ap length e, length-append {0} (joined ms) tail, length-joined h ms w)

  -- What the handler leaves, where the messages gave `r`.
  recv_msgs_parts :
      (conn : ℕ) (msg : Buffer) (s : Server a k h) (r : Str × h.Store)
      → process_msgs h (num_msgs h msg.size_) (contents msg) s.store ≡ r
      → conn < length s.links
      → ((recv_msgs a k h conn msg s).0 ≡ co_ok)
        × ((recv_msgs a k h conn msg s).1.store ≡ r.1)
        × ((link_at a k h (recv_msgs a k h conn msg s).1 conn).omsg_q
            ≡ (link_at a k h s conn).omsg_q ++ wrap r.0 ∷ [])
  unfolding recv_msgs
  recv_msgs_parts conn msg s r p known = (
    refl,
    ap (λ (x : Str × h.Store). x.1) p,
    ap (λ (l : Link). l.omsg_q) (get_or-set_self s.links conn _ (no_link a) known)
        ∙ ap (λ (x : Str × h.Store). (link_at a k h s conn).omsg_q ++ wrap x.0 ∷ []) p,
  )

  -- Where a read succeeds, `req_recv` answers every whole message of the bytes read, in order, each
  -- at the store that the one before left, and queues the responses as one buffer behind those that
  -- wait. The bytes behind the last whole message are answered by nothing.
  pub req_recv-respond :
      (es : List Arrival) (conn : ℕ) (s : Server a k h) (msg : Buffer) (ms : List Str) (tail : Str)
      → (msg_read a es (link_at a k h s conn)).0 ≡ some msg
      → contents msg ≡ joined ms ++ tail
      → AreMessages ms
      → length tail < message_size
      → conn < length s.links
      → ((req_recv a k h es conn s).0 ≡ co_ok)
        × ((req_recv a k h es conn s).1.store ≡ (respond h ms s.store).1)
        × ((link_at a k h (req_recv a k h es conn s).1 conn).omsg_q
            ≡ (link_at a k h s conn).omsg_q ++ wrap (respond h ms s.store).0 ∷ [])
  req_recv-respond es conn s msg ms tail e text w short known =
      let (v, size, _) = msg_read-stream a es (link_at a k h s conn) msg e in
      let few = few_messages (contents msg) ms tail text w size in
      let answered =
        ap (λ n. process_msgs h (num_msgs h n) (contents msg) s.store) (sym (length-contents msg v))
        ∙ messages-respond h (contents msg) ms tail s.store text w short few in
      rw (req_recv-msg_read es conn s msg e)
        (recv_msgs_parts conn msg s (respond h ms s.store) answered known)

  -- What `rsp_send` leaves where a buffer waits: the first of the queue is gone, and what went out with
  -- what is lost is that buffer's text.
  sent_parts :
      (conn : ℕ) (l : Link) (len : Option ℕ) (wire : Str) (s : Server a k h)
      → conn < length s.links
      → ((sent a k h conn l len wire s).1 ≡ wire)
        × ((link_at a k h (sent a k h conn l len wire s).2 conn).omsg_q ≡ l.omsg_q)
  unfolding sent mark_error
  sent_parts conn l none wire s known =
      (refl, ap (λ (x : Link). x.omsg_q) (get_or-set_self s.links conn _ (no_link a) known))
  sent_parts conn l (some zero) wire s known =
      (refl, ap (λ (x : Link). x.omsg_q) (get_or-set_self s.links conn _ (no_link a) known))
  sent_parts conn l (some (suc n)) wire s known =
      (refl, ap (λ (x : Link). x.omsg_q) (get_or-set_self s.links conn _ (no_link a) known))

  wire-Writes :
      (b : Buffer) (w : Option ℕ × Buffer × Str × List Departure)
      → Writes b w
      → w.2 ++ contents w.1 ≡ contents b
  wire-Writes b (none, c, wire, rest) r = r.1
  wire-Writes b (some n, c, wire, rest) r = r.1

  -- Where a response waits, `rsp_send` takes the first from the queue and no other, and sends a part
  -- of its bytes from the front; the bytes that it does not send are lost.
  pub rsp_send-front :
      (es : List Departure) (conn : ℕ) (s : Server a k h) (smsg : Buffer) (queue : List Buffer)
      → (link_at a k h s conn).omsg_q ≡ smsg ∷ queue
      → IsValid smsg
      → conn < length s.links
      → ((link_at a k h (rsp_send a k h es conn s).2 conn).omsg_q ≡ queue)
        × ((lost : Str) × ((rsp_send a k h es conn s).1 ++ lost ≡ contents smsg))
  unfolding rsp_send send_front sent
  rsp_send-front es conn s smsg queue waits v known =
      let l = link_at a k h s conn in
      let w = msg_write a es l smsg in
      let (wire, left) = sent_parts conn (record l { omsg_q = queue }) w.0 w.2 s known in
      let written =
        wire-Writes smsg w (unfold msg_write in write_buffer-Writes a l.noblock_ es smsg v) in
      rw (waits, send_front) (left, (contents w.1, ap (λ x. x ++ contents w.1) wire ∙ written))
