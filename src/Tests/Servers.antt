-- ===== src/Tests/Servers.antt =====
-- The handlers of server-5204/msg.cpp with a store that counts its requests.
use expert_spoon.Prelude.{
  ℕ, suc, ◌≡◌, refl, true, some, List, [], ◌∷◌, ◌++◌, Str, arith, sym, ap, ◌∙◌, append-nil,
  length-replicate, replicate,
}
use expert_spoon.Buffer
use expert_spoon.Buffer.{Buffer, contents, put, overwrite, wrap, nice}
use expert_spoon.Buffer.Window.{IsValid, wrap-IsValid}
use expert_spoon.Link.{Link, init_buffer_size}
use expert_spoon.Link.Socket.{
  Arrival, got, read_would_block, Departure, accepted, write_would_block, fill, grow_initial,
  msg_read, stopped,
}
use expert_spoon.Link.Stream.{pending}
use expert_spoon.Link.Transfer.{msg_read-stream}
use expert_spoon.Link
use expert_spoon.Server.{Handler, Server, co_ok, link_at, req_recv, rsp_send}
use expert_spoon.Server.Messages.{joined}
use expert_spoon.Server.Handlers.{req_recv-respond, rsp_send-front}
use expert_spoon.Tests.Heap.{heap, resized}
use expert_spoon.Tests.Fdes.{epoll, nothing_watched}

-- The n-th request is answered with 50 bytes of value n.
abbrev counter : Handler
counter = record {
  Store = ℕ;
  process = λ msg s. (replicate 50 s, suc s);
  length-process = λ msg s. length-replicate 50 s;
}

abbrev conn_of : List Buffer → Link
conn_of q = record (Link.new heap) { sock = some 5; noblock_ = true; omsg_q = q }

abbrev server_of : List Buffer → Server heap epoll counter
server_of q = record {
  fdes = nothing_watched;
  links = conn_of q ∷ [];
  store = 3;
  listener = 1000;
  conn_count = 1;
}

-- Fifty bytes and three more.
abbrev request : Str
request = replicate 50 7

abbrev arriving : List Arrival
arriving = got (request ++ 1 ∷ 2 ∷ 3 ∷ []) ∷ read_would_block ∷ []

abbrev empty_msg : Buffer
empty_msg = nice (grow_initial heap (Buffer.new heap init_buffer_size))

abbrev msg : Buffer
msg = (fill true arriving empty_msg 0).buffer

fill_end : (fill true arriving empty_msg 0).end ≡ stopped
unfolding fill nice grow_initial Buffer.new Buffer.grow resized
fill_end = refl

fill_rest : (fill true arriving empty_msg 0).rest ≡ []
unfolding fill nice grow_initial Buffer.new Buffer.grow resized put
fill_rest = refl

msg_runs : (msg_read heap arriving (conn_of [])).0 ≡ some msg
unfolding msg_read fill
msg_runs = rw (fill_end, msg_read) refl

rest_runs : (msg_read heap arriving (conn_of [])).1 ≡ []
unfolding msg_read
rest_runs = fill_rest

msg_text : contents msg ≡ joined (request ∷ []) ++ 1 ∷ 2 ∷ 3 ∷ []
msg_text =
    let (_, _, text) = msg_read-stream heap arriving (conn_of []) msg msg_runs in
    sym (append-nil (contents msg)) ∙ ap (λ r. contents msg ++ pending r) (sym rest_runs) ∙ text

req_recv-respond_example :
    ((req_recv heap epoll counter arriving 0 (server_of [])).0 ≡ co_ok)
    × ((req_recv heap epoll counter arriving 0 (server_of [])).1.store ≡ 4)
    × ((link_at heap epoll counter
          (req_recv heap epoll counter arriving 0 (server_of [])).1
          0).omsg_q
        ≡ wrap (replicate 50 3) ∷ [])
req_recv-respond_example =
    req_recv-respond heap epoll counter arriving 0 (server_of []) msg (request ∷ [])
      (1 ∷ 2 ∷ 3 ∷ []) msg_runs msg_text (refl, tt) (omega arith) (omega arith)

abbrev departing : List Departure
departing = accepted 20 ∷ write_would_block ∷ []

response-IsValid : IsValid (wrap (replicate 50 3))
response-IsValid = wrap-IsValid (replicate 50 3) (omega arith)

rsp_send-front_example :
    ((link_at heap epoll counter
        (rsp_send heap epoll counter departing 0
          (server_of (wrap (replicate 50 3) ∷ wrap [] ∷ []))).2
        0).omsg_q
      ≡ wrap [] ∷ [])
    × ((lost : Str) × ((rsp_send heap epoll counter departing 0
              (server_of (wrap (replicate 50 3) ∷ wrap [] ∷ []))).1
            ++ lost
          ≡ contents (wrap (replicate 50 3))))
rsp_send-front_example =
    rsp_send-front heap epoll counter departing 0 (server_of (wrap (replicate 50 3) ∷ wrap [] ∷ []))
      (wrap (replicate 50 3)) (wrap [] ∷ []) refl response-IsValid (omega arith)
