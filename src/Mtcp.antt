-- ===== src/Mtcp.antt =====
-- mtcp_kvstore/kvstore.c: the server over mTCP, one thread of it. mTCP is not part of the repository, so
-- what its calls answer is an argument, and the calls that only tell it something are recorded in order.
-- The answers to `mtcp_read` and `mtcp_write` are lists, from the first call on; where a list ends, the
-- call goes on answering EAGAIN.
pub mod Wire
pub mod Loops
pub mod Serve
pub mod Close
use expert_spoon.Prelude.{
  ℕ, zero, suc, ◌+◌, ◌-◌, Bool, true, false, not, ◌&&◌, ◌||◌, Option, none, some, List, [], ◌∷◌,
  ◌++◌, Str, ltb, leb, ◌==◌, if◌then◌else◌, length, take, drop, get_or, min,
}
use expert_spoon.Kvstore
use expert_spoon.Kvstore.{CuckooMap, Message, Pointer, kvstore_process_packet}

-- KVSTORE_CONTENT_LEN and MAX_FLOW_NUM
abbrev pub content_len : ℕ
content_len = 50

abbrev pub max_flow_num : ℕ
max_flow_num = 10000

-- EAGAIN or EWOULDBLOCK; ENOTCONN, which is 107; any other.
pub data Errno : Type 0 where
  again not_connected other : Errno

-- `mtcp_read` gives one byte or more, which a call takes as far as they fit, or returns 0 or -1 with
-- `errno` as it then stands. `mtcp_write` takes at most so many bytes, or returns -1.
pub data Read : Type 0 where
  received : ℕ → Str → Read
  no_read : Errno → Read

pub data Write : Type 0 where
  took : ℕ → Write
  no_write : Errno → Write

-- Bytes that a call left in the socket.
abbrev pub unread : Str → List Read → List Read
unread [] es = es
unread (c ∷ s) es = received c s ∷ es

-- How the reading loop ends: with a whole packet, by ENOTCONN, by `exit(1)`, or not at all.
pub data ReadEnd : Type 0 where
  filled : Str → List Read → ReadEnd
  read_killed : ReadEnd
  read_exits : ReadEnd
  read_waits : Str → ReadEnd

-- while(content_read != KVSTORE_CONTENT_LEN){ ... }
unfoldable pub read_loop : List Read → Str → ReadEnd
read_loop [] buf = if length buf == content_len then filled buf [] else read_waits buf
read_loop (received c s ∷ es) buf =
    let want = content_len - length buf in
    let further = read_loop es (buf ++ c ∷ s) in
    if length buf == content_len
    then filled buf (received c s ∷ es)
    else if ltb want (length (c ∷ s))
    then filled (buf ++ take want (c ∷ s)) (unread (drop want (c ∷ s)) es)
    else further
read_loop (no_read again ∷ es) buf =
    let further = read_loop es buf in
    if length buf == content_len then filled buf (no_read again ∷ es) else further
read_loop (no_read not_connected ∷ es) buf =
    if length buf == content_len then filled buf (no_read not_connected ∷ es) else read_killed
read_loop (no_read other ∷ es) buf =
    if length buf == content_len then filled buf (no_read other ∷ es) else read_exits

-- How the writing loop ends, with the bytes that went out.
pub data WriteEnd : Type 0 where
  all_sent : Str → List Write → WriteEnd
  write_killed : Str → WriteEnd
  write_exits : Str → WriteEnd
  write_waits : Str → WriteEnd

-- while(content_sent != KVSTORE_CONTENT_LEN){ ... }, with the bytes that are left
unfoldable pub write_loop : List Write → Str → Str → WriteEnd
write_loop [] left wire = if length left == 0 then all_sent wire [] else write_waits wire
write_loop (took n ∷ es) left wire =
    let sent = min n (length left) in
    let further = write_loop es (drop sent left) (wire ++ take sent left) in
    if length left == 0 then all_sent wire (took n ∷ es) else further
write_loop (no_write again ∷ es) left wire =
    let further = write_loop es left wire in
    if length left == 0 then all_sent wire (no_write again ∷ es) else further
write_loop (no_write not_connected ∷ es) left wire =
    if length left == 0 then all_sent wire (no_write not_connected ∷ es) else write_killed wire
write_loop (no_write other ∷ es) left wire =
    if length left == 0 then all_sent wire (no_write other ∷ es) else write_exits wire

-- struct send_message in the 50 bytes of a packet
unfoldable pub decode : Str → Message
decode buf = record {
  operation = get_or buf 0 0;
  keepalive = get_or buf 1 0;
  key = take 16 (drop 2 buf);
  value = take 32 (drop 18 buf);
}

unfoldable pub encode : Message → Str
encode m = m.operation ∷ m.keepalive ∷ (m.key ++ m.value)

-- The calls of mTCP that tell it something about a socket.
pub data Call : Type 0 where
  ctl_add ctl_mod ctl_del : ℕ → Call
  close nonblock : ℕ → Call

-- One event with what mTCP answers to the calls that it leads to, and `errno` behind them.
pub record Event : Type 0 where
  pub sockid : ℕ
  pub epollerr : Bool
  pub epollin : Bool
  pub reads : List Read
  pub writes : List Write
  pub errno : Errno

module _ (c : CuckooMap) where
  -- The store's pointer, the two counters, and the calls so far.
  pub record Thread : Type 0 where
    pub store : Pointer c
    pub num_pkts_recvd : ℕ
    pub num_pkts_writ : ℕ
    pub calls : List Call

  abbrev pub call : Call → Thread → Thread
  call x t = record t { calls = t.calls ++ x ∷ [] }

  unfoldable pub close_connection : ℕ → Thread → Thread
  close_connection sockid t = call (close sockid) (call (ctl_del sockid) t)

  -- What `HandleReadEvent` comes to: its result, which is a `char`, the bytes sent and the thread after
  -- it; `exit(1)`; a call of the store through a bad pointer; a loop that waits for ever.
  pub data Handled : Type 0 where
    handled : ℕ → Str → Thread → Handled
    exits : Handled
    undefined : Handled
    waits : Handled

  -- behind the writing loop
  unfoldable pub answered : ℕ → ℕ → Thread → Thread
  answered keepalive sockid t =
      let armed = call (ctl_mod sockid) (record t { num_pkts_writ = t.num_pkts_writ + 1 }) in
      if keepalive == 0 then close_connection sockid armed else armed

  unfoldable pub send_reply : ℕ → Str → List Write → ℕ → Thread → Handled
  send_reply keepalive reply ws sockid t = elim (write_loop ws reply []) [
    | all_sent wire rest ↦ handled keepalive wire (answered keepalive sockid t)
    | write_killed wire ↦ handled 0 wire (close_connection sockid t)
    | write_exits wire ↦ exits
    | write_waits wire ↦ waits
  ]

  unfoldable pub handle_packet : Str → List Write → ℕ → Thread → Handled
  handle_packet buf ws sockid t = elim (kvstore_process_packet c (decode buf) t.store) [
    | Kvstore.replied result reply store ↦
        send_reply (get_or buf 1 0) (encode reply) ws sockid (record t { store = store })
    | Kvstore.exits ↦ exits
    | Kvstore.undefined ↦ undefined
  ]

  unfoldable pub handle_read_event : List Read → List Write → ℕ → Thread → Handled
  handle_read_event rs ws sockid t = elim (read_loop rs []) [
    | filled buf rest ↦
        handle_packet buf ws sockid (record t { num_pkts_recvd = t.num_pkts_recvd + 1 })
    | read_killed ↦ handled 0 [] (close_connection sockid t)
    | read_exits ↦ exits
    | read_waits buf ↦ waits
  ]

  -- What the thread does with the result, a `char`: 0, and below 0 unless `errno` is EAGAIN.
  unfoldable pub after_read : ℕ → Errno → ℕ → Thread → Thread
  after_read ret again sockid t = if ret == 0 then close_connection sockid t else t
  after_read ret not_connected sockid t =
      if ret == 0 || leb 128 ret then close_connection sockid t else t
  after_read ret other sockid t = if ret == 0 || leb 128 ret then close_connection sockid t else t

  unfoldable pub read_done : Errno → ℕ → Handled → Handled
  read_done errno sockid (handled ret wire t) = handled ret wire (after_read ret errno sockid t)
  read_done errno sockid exits = exits
  read_done errno sockid undefined = undefined
  read_done errno sockid waits = waits

  -- An event of a connection. The result of an event that is not read from is not looked at.
  unfoldable pub conn_event : Event → Thread → Handled
  conn_event e t =
      if e.epollerr
      then handled 0 [] (close_connection e.sockid t)
      else if e.epollin
      then read_done e.errno e.sockid (handle_read_event e.reads e.writes e.sockid t)
      else handled 0 [] t

  -- AcceptConnection: the new socket, or below 0 (`none`); a socket that is out of range stays open.
  unfoldable pub accept_connection : Option ℕ → Thread → Option ℕ × Thread
  accept_connection none t = (none, t)
  accept_connection (some s) t =
      if leb max_flow_num s then (none, t) else (some s, call (ctl_add s) (call (nonblock s) t))

  -- while(1){ ret = AcceptConnection(ctx, listener); if(ret < 0) break; }
  unfoldable pub accept_all : List (Option ℕ) → Thread → Thread
  accept_all [] t = t
  accept_all (a ∷ answers) t =
      let (ret, next) = accept_connection a t in
      let further = accept_all answers next in elim ret [ none ↦ next | some s ↦ further ]

  -- The events of one `mtcp_epoll_wait`. The listener's only sets `do_accept`.
  pub data Turn : Type 0 where
    turned : Bool → Thread → Turn
    ended : Turn

  unfoldable pub handle_events : ℕ → List Event → Bool → Thread → Turn
  handle_events listener [] do_accept t = turned do_accept t
  handle_events listener (e ∷ es) do_accept t = elim (e.sockid == listener) [
    | true ↦ handle_events listener es true t
    | false ↦ elim (conn_event e t) [
      | handled ret wire u ↦ handle_events listener es do_accept u
      | exits ↦ ended
      | undefined ↦ ended
      | waits ↦ ended
    ]
  ]

  -- One round of the thread's loop.
  unfoldable pub turn : ℕ → List Event → List (Option ℕ) → Thread → Turn
  turn listener es answers t = elim (handle_events listener es false t) [
    | turned do_accept u ↦ turned do_accept (if do_accept then accept_all answers u else u)
    | ended ↦ ended
  ]

  -- CreateListeningSocket: the descriptor of `mtcp_socket`, and whether the calls behind it succeed;
  -- where one fails the socket stays open.
  unfoldable pub create_listening_socket :
      Option ℕ → Bool → Bool → Bool → Thread → Option ℕ × Thread
  create_listening_socket none nonblocked bound listening t = (none, t)
  create_listening_socket (some s) nonblocked bound listening t =
      let u = call (nonblock s) t in
      if nonblocked && (bound && listening) then (some s, call (ctl_add s) u) else (none, u)
