-- ===== src/Server.antt =====
-- server-5204/msg.cpp and net.cpp: the two handlers of a connection and the main loop that calls them.
-- Connections are entries of a table, and a pointer to one is its index. Every system call's answer
-- comes with the event that leads to it. The call `kvstore_process_packet(msg, &resp)` has two
-- arguments here, and kvstorelib declares one: the library that the handlers were written for is a
-- `Handler`.
pub mod Messages
pub mod Handlers
use expert_spoon.Prelude.{
  ℕ, zero, suc, ◌+◌, ◌*◌, ◌/◌, ◌%◌, ◌^◌, ◌≡◌, Bool, true, false, ◌&&◌, Option, none, some, List, [],
  ◌∷◌, ◌++◌, Str, ltb, ◌==◌, if◌then◌else◌, length, take, drop, get_elem?, get_or, set,
}
use expert_spoon.Buffer.{Buffer, Allocator, contents, wrap}
use expert_spoon.Link
use expert_spoon.Link.{Link, mark_error}
use expert_spoon.Link.Socket.{Arrival, Departure, msg_read, msg_write}
use expert_spoon.Fde.{
  Epoll, Fdevents, Fdevent, Flags, fde_at, in_flag, out_flag, del, clr, set_flags, wait, Waited,
  wait_ready,
}

-- sizeof(struct send_message) and sizeof(struct response_message)
abbrev pub message_size : ℕ
message_size = 50

-- One message and the store give the response and the store after it.
pub record Handler : Type 1 where
  pub Store : Type 0
  pub process : Str → Store → Str × Store
  pub length-process : (msg : Str) (s : Store) → length (process msg s).0 ≡ message_size

-- rstatus_t
pub data Status : Type 0 where
  co_ok co_err : Status

module _ (h : Handler) where
  -- for(i = 0; i < num_msgs; i++) kvstore_process_packet(&msgs[i], &resp_msgs[i])
  unfoldable pub process_msgs : ℕ → Str → h.Store → Str × h.Store
  process_msgs zero msgs s = ([], s)
  process_msgs (suc n) msgs s =
      let (resp, s') = h.process (take message_size msgs) s in
      let (rest, last) = process_msgs n (drop message_size msgs) s' in (resp ++ rest, last)

  -- uint16_t num_msgs
  unfoldable pub num_msgs : ℕ → ℕ
  num_msgs size = (size / message_size) % 2 ^ 16

-- The descriptor of a connection; -1 is never asked for.
abbrev pub fd_of : Link → ℕ
fd_of l = elim l.sock [ none ↦ 0 | some fd ↦ fd ]

abbrev pub no_link : Allocator → Link
no_link a = Link.new a

-- What `::accept` gives: a descriptor, and the other end's address and port.
pub record Peer : Type 0 where
  pub client_sock : ℕ
  pub ip : Str
  pub port : ℕ

-- What the kernel answers to the calls that one ready event leads to: what `accept` gives, if anything,
-- and the answers to `read` and `write`.
pub record Answers : Type 0 where
  pub accepted : Option Peer
  pub arrivals : List Arrival
  pub departures : List Departure

module _ (a : Allocator) (k : Epoll) (h : Handler) where
  pub record Server : Type 0 where
    pub fdes : Fdevents k
    pub links : List Link
    pub store : h.Store
    pub listener : ℕ
    pub conn_count : ℕ

  abbrev pub link_at : Server → ℕ → Link
  link_at s conn = get_or s.links conn (no_link a)

  abbrev pub put_link : ℕ → Link → Server → Server
  put_link conn l s = record s { links = set s.links conn l }

  -- the branch `msg == NULL`
  unfoldable pub recv_failed : ℕ → Server → Status × Server
  recv_failed conn s =
      let l = mark_error (link_at s conn) in
      (co_err, record s { links = set s.links conn l; fdes = (del k (fd_of l) s.fdes).1 })

  -- what is done with a message buffer
  unfoldable pub recv_msgs : ℕ → Buffer → Server → Status × Server
  recv_msgs conn msg s =
      let l = link_at s conn in
      let (resp, store) = process_msgs h (num_msgs h msg.size_) (contents msg) s.store in
      (
        co_ok,
        record s {
          links = set s.links conn (record l { omsg_q = l.omsg_q ++ wrap resp ∷ [] });
          store = store;
          fdes = (set_flags k (fd_of l) out_flag 1 (some conn) s.fdes).1;
        },
      )

  unfoldable pub req_recv : List Arrival → ℕ → Server → Status × Server
  req_recv es conn s = elim (msg_read a es (link_at s conn)).0 [
    | none ↦ recv_failed conn s
    | some msg ↦ recv_msgs conn msg s
  ]

  -- The status after `msg_write`: `len <= 0` marks the link.
  unfoldable pub sent : ℕ → Link → Option ℕ → Str → Server → Status × Str × Server
  sent conn l none wire s = (co_err, wire, put_link conn (mark_error l) s)
  sent conn l (some zero) wire s = (co_err, wire, put_link conn (mark_error l) s)
  sent conn l (some (suc n)) wire s = (co_ok, wire, put_link conn l s)

  -- the queue after `pop_front`; the buffer is deleted whatever part of it was written
  unfoldable pub send_front :
      List Departure → ℕ → Link → List Buffer → Server → Status × Str × Server
  send_front es conn l [] s = (co_ok, [], record s { fdes = (clr k (fd_of l) out_flag s.fdes).1 })
  send_front es conn l (smsg ∷ queue) s =
      let (len, _, wire, _) = msg_write a es l smsg in
      sent conn (record l { omsg_q = queue }) len wire s

  -- the result, the bytes that went out, and the server after it
  unfoldable pub rsp_send : List Departure → ℕ → Server → Status × Str × Server
  rsp_send es conn s = send_front es conn (link_at s conn) (link_at s conn).omsg_q s

  -- NetworkServer::recv and send: a link with an error is left alone
  unfoldable pub recv : List Arrival → ℕ → Server → Status × Server
  recv es conn s = if (link_at s conn).error_ then (co_err, s) else req_recv es conn s

  unfoldable pub send : List Departure → ℕ → Server → Status × Str × Server
  send es conn s = if (link_at s conn).error_ then (co_err, [], s) else rsp_send es conn s

  -- Link::accept and accept_conn, where `accept` gave a descriptor
  unfoldable pub new_conn : Peer → Link
  new_conn p = record (Link.new a) {
    sock = some p.client_sock;
    noblock_ = true;
    remote_ip = p.ip;
    remote_port = some p.port;
  }

  unfoldable pub accept_event : Answers → Server → Server
  accept_event ans s = elim ans.accepted [
    | none ↦ s
    | some p ↦ record s {
      links = s.links ++ new_conn p ∷ [];
      conn_count = s.conn_count + 1;
      fdes = (set_flags k p.client_sock in_flag 1 (some (length s.links)) s.fdes).1;
    }
  ]

  -- a connection's event
  unfoldable pub conn_event : Fdevent → Answers → ℕ → Server → Server
  conn_event fde ans conn s =
      if fde.events.for_in
      then (recv ans.arrivals conn s).1
      else if fde.events.for_out
      then (send ans.departures conn s).2
      else s

  -- one event of the loop: the listener's pointer, or a connection's
  unfoldable pub event : ℕ → Answers → Server → Server
  event fd ans s =
      let fde = fde_at fd s.fdes.events in
      elim fde.ptr [
        | none ↦ s
        | some p ↦ if p == s.listener then accept_event ans s else conn_event fde ans p s
      ]

  -- the `for` loop over the ready descriptors
  unfoldable pub events : List (ℕ × Answers) → Server → Server
  events [] s = s
  events ((fd, ans) ∷ rest) s = events rest (event fd ans s)

  -- before the loop: the listener is watched
  unfoldable pub start : ℕ → Server → Server
  start listener_fd s = record s {
    fdes = (set_flags k listener_fd in_flag 0 (some s.listener) s.fdes).1;
  }

  -- the ready descriptors with the kernel's answers, which are given by descriptor
  abbrev pub with_answers : List ℕ → (ℕ → Answers) → List (ℕ × Answers)
  with_answers [] answers = []
  with_answers (fd ∷ fds) answers = (fd, answers fd) ∷ with_answers fds answers

  -- one turn of `while (true)`; `none` is the loop's `return CO_ERR`
  unfoldable pub turn : Waited → (ℕ → Answers) → Server → Option Server
  turn w answers s = elim (wait k w s.fdes).0 [
    | none ↦ none
    | some fds ↦ some (events (with_answers fds answers) (record s { fdes = (wait k w s.fdes).1 }))
  ]
