-- ===== src/Tests/Mtcps.antt =====
-- A PUT that arrives in two pieces at a thread whose store is empty, and is answered in two.
use expert_spoon.Prelude.{
  ℕ, zero, suc, ◌≡◌, ◌≤◌, arith, refl, true, false, none, some, List, [], ◌∷◌, ◌++◌, Str,
}
use expert_spoon.Kvstore.{Message, put, live, is_operation}
use expert_spoon.Kvstore.Table.{reply_to}
use expert_spoon.Tests.Kvstores.{cuckoo}
use expert_spoon.Mtcp.{
  Read, received, no_read, again, Write, took, no_write, encode, Thread, Event, handled, conn_event,
  accept_all, handle_read_event, max_flow_num, ctl_mod, ctl_del, close,
}
use expert_spoon.Mtcp.Wire.{IsWire}
use expert_spoon.Mtcp.Serve.{Serves, handle_read_event-Serves}
use expert_spoon.Mtcp.Close.{
  conn_event-closes_twice, accept_all-registers, accepting, registrations,
}

abbrev copies : ℕ → ℕ → Str
copies zero c = []
copies (suc n) c = c ∷ copies n c

abbrev put_q : Message
put_q = record { operation = put; keepalive = 0; key = copies 16 b'q'; value = copies 32 b'v' }

put_q-IsWire : IsWire put_q
put_q-IsWire = record { key_size = refl; value_size = refl }

abbrev two_pieces : List Read
two_pieces =
    received put (0 ∷ copies 8 b'q')
    ∷ no_read again
    ∷ received b'q' (copies 7 b'q' ++ copies 32 b'v')
    ∷ []

abbrev two_writes : List Write
two_writes = took 20 ∷ no_write again ∷ took 50 ∷ []

abbrev fresh : Thread cuckoo
fresh = record { store = live cuckoo.empty; num_pkts_recvd = 0; num_pkts_writ = 0; calls = [] }

handle_read_event-Serves_example :
    Serves cuckoo put_q cuckoo.empty 7 fresh
      (handle_read_event cuckoo two_pieces two_writes 7 fresh)
handle_read_event-Serves_example =
    handle_read_event-Serves cuckoo put_q [] cuckoo.empty two_pieces two_writes 7 fresh refl
      put_q-IsWire (unfold is_operation in refl) (λ k v e. absurd (none_some v e)) (refl, tt)
      (unfold encode in refl) (refl, tt) (omega arith)
  where
    none_some : (v : Str) → none ≡ some v → ⊥
    none_some v e = cc

-- The same as an event of the thread's loop.
abbrev event : Event
event = record {
  sockid = 7;
  epollerr = false;
  epollin = true;
  reads = two_pieces;
  writes = two_writes;
  errno = again;
}

served :
    Serves cuckoo put_q cuckoo.empty 7 fresh
      (handle_read_event cuckoo two_pieces two_writes 7 fresh)
served =
    handle_read_event-Serves cuckoo put_q [] cuckoo.empty two_pieces two_writes 7 fresh refl
      put_q-IsWire (unfold is_operation in refl) (λ k v e. absurd (none_some v e)) (refl, tt)
      (unfold encode in refl) (refl, tt) (omega arith)
  where
    none_some : (v : Str) → none ≡ some v → ⊥
    none_some v e = cc

abbrev stored : Thread cuckoo
stored = record { store = live served.next; num_pkts_recvd = 1; num_pkts_writ = 0; calls = [] }

conn_event-closes_twice_example :
    (v : Thread cuckoo) × (conn_event cuckoo event fresh
      ≡ handled 0 (encode (reply_to put_q (cuckoo.find cuckoo.empty))) v)
    × (v.calls ≡ ctl_mod 7 ∷ ctl_del 7 ∷ close 7 ∷ ctl_del 7 ∷ close 7 ∷ [])
conn_event-closes_twice_example =
    conn_event-closes_twice cuckoo event fresh stored
      (encode (reply_to put_q (cuckoo.find cuckoo.empty))) refl refl served.ends

-- Two connections, then a socket out of range; the last answer is not asked for.
accept_all-registers_example :
    accept_all cuckoo (accepting (4 ∷ 5 ∷ []) (some 10000) (some 6 ∷ [])) fresh
    ≡ record fresh { calls = registrations (4 ∷ 5 ∷ []) }
accept_all-registers_example =
    accept_all-registers cuckoo (4 ∷ 5 ∷ []) (some 10000) (some 6 ∷ []) fresh
      (omega arith, (omega arith, tt)) (λ n e. out n e)
  where
    out : (n : ℕ) → some 10000 ≡ some n → max_flow_num ≤ n
    out n e = ground arith
