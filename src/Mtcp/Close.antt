-- ===== src/Mtcp/Close.antt =====
-- Sockets that are closed (mtcp_kvstore/kvstore.c): by HandleReadEvent, and again by its caller.
use expert_spoon.Prelude.{
  ℕ, ◌≡◌, refl, sym, ap, ◌∙◌, true, false, List, [], ◌∷◌, ◌++◌, Str, append_assoc, Option, none,
  some, leb, ◌≤◌, arith, le→leb, ◌<◌, All, append-nil,
}
use expert_spoon.Kvstore.{CuckooMap}
use expert_spoon.Mtcp.{
  Errno, again, not_connected, other, Call, call, ctl_mod, ctl_del, ctl_add, nonblock, close,
  Thread, handled, close_connection, answered, after_read, read_done, Event, conn_event,
  handle_read_event, accept_connection, accept_all, max_flow_num,
}

-- The calls that take connections into the interest list.
abbrev pub registrations : List ℕ → List Call
registrations [] = []
registrations (s ∷ socks) = nonblock s ∷ ctl_add s ∷ registrations socks

abbrev pub accepting : List ℕ → Option ℕ → List (Option ℕ) → List (Option ℕ)
accepting [] last rest = last ∷ rest
accepting (s ∷ socks) last rest = some s ∷ accepting socks last rest

module _ (c : CuckooMap) where
  after_read-zero :
      (errno : Errno) (sockid : ℕ) (t : Thread c)
      → after_read c 0 errno sockid t ≡ close_connection c sockid t
  unfolding after_read
  after_read-zero again sockid t = refl
  after_read-zero not_connected sockid t = refl
  after_read-zero other sockid t = refl

  answered_calls :
      (sockid : ℕ) (t : Thread c)
      → (close_connection c sockid (answered c 0 sockid t)).calls
        ≡ t.calls
          ++ ctl_mod sockid ∷ ctl_del sockid ∷ close sockid ∷ ctl_del sockid ∷ close sockid ∷ []
  unfolding close_connection answered
  answered_calls sockid t = simp append_assoc

  conn_event-read :
      (e : Event) (t u : Thread c) (ret : ℕ) (wire : Str)
      → e.epollerr ≡ false
      → e.epollin ≡ true
      → handle_read_event c e.reads e.writes e.sockid t ≡ handled ret wire u
      → conn_event c e t ≡ handled ret wire (after_read c ret e.errno e.sockid u)
  unfolding conn_event read_done
  conn_event-read e t u ret wire no_error readable h = rw (no_error, readable, h, conn_event) refl

  -- Where HandleReadEvent answers a request without keepalive, and so has closed the socket, the
  -- thread's loop takes it from the interest list and closes it once more.
  pub conn_event-closes_twice :
      (e : Event) (t u : Thread c) (wire : Str)
      → e.epollerr ≡ false
      → e.epollin ≡ true
      → handle_read_event c e.reads e.writes e.sockid t ≡ handled 0 wire (answered c 0 e.sockid u)
      → (v : Thread c) × (conn_event c e t ≡ handled 0 wire v)
        × (v.calls
            ≡ u.calls
              ++ ctl_mod e.sockid
                ∷ ctl_del e.sockid
                ∷ close e.sockid
                ∷ ctl_del e.sockid
                ∷ close e.sockid
                ∷ [])
  conn_event-closes_twice e t u wire no_error readable h = (
    close_connection c e.sockid (answered c 0 e.sockid u),
    conn_event-read e t (answered c 0 e.sockid u) 0 wire no_error readable h
        ∙ ap (handled 0 wire) (after_read-zero e.errno e.sockid (answered c 0 e.sockid u)),
    answered_calls e.sockid u,
  )

  out_of_range :
      (s : ℕ) (t : Thread c) → max_flow_num ≤ s → accept_connection c (some s) t ≡ (none, t)
  unfolding accept_connection
  out_of_range s t h = rw (le→leb max_flow_num s h, accept_connection) refl

  in_range :
      (s : ℕ) (t : Thread c)
      → s < max_flow_num
      → accept_connection c (some s) t ≡ (some s, call c (ctl_add s) (call c (nonblock s) t))
  unfolding accept_connection
  in_range s t h = rw (too_large s h, accept_connection) refl
    where
      too_large : (s : ℕ) → s < max_flow_num → leb max_flow_num s ≡ false
      too_large s h = ground arith

  going_on : List (Option ℕ) → Option ℕ × Thread c → Thread c
  going_on answers p = elim (p.0) [ none ↦ p.1 | some s ↦ accept_all c answers p.1 ]

  refused :
      (last : Option ℕ) (rest : List (Option ℕ)) (t : Thread c)
      → ((n : ℕ) → last ≡ some n → max_flow_num ≤ n)
      → accept_all c (last ∷ rest) t ≡ t
  unfolding accept_all
  refused none rest t h = unfold accept_connection in refl
  refused (some n) rest t h = unfold going_on in ap (going_on rest) (out_of_range n t (h n refl))

  accepted :
      (s : ℕ) (answers : List (Option ℕ)) (t : Thread c)
      → s < max_flow_num
      → accept_all c (some s ∷ answers) t
        ≡ accept_all c answers (record t { calls = (t.calls ++ nonblock s ∷ []) ++ ctl_add s ∷ [] })
  unfolding accept_all
  accepted s answers t h = unfold going_on in ap (going_on answers) (in_range s t h)

  -- The accept loop sets every socket below MAX_FLOW_NUM non-blocking and enters it into the
  -- interest list, in order, and ends at the first refusal or at a socket out of range; no call
  -- closes that socket, and the answers behind it are not asked for.
  pub accept_all-registers :
      (socks : List ℕ) (last : Option ℕ) (rest : List (Option ℕ)) (t : Thread c)
      → All (λ s. s < max_flow_num) socks
      → ((n : ℕ) → last ≡ some n → max_flow_num ≤ n)
      → accept_all c (accepting socks last rest) t
        ≡ record t { calls = t.calls ++ registrations socks }
  accept_all-registers [] last rest t w h =
      refused last rest t h ∙ ap (λ x. record t { calls = x }) (sym (append-nil t.calls))
  accept_all-registers (s ∷ socks) last rest t w h =
      accepted s (accepting socks last rest) t w.0
      ∙ accept_all-registers socks last rest
          (record t { calls = (t.calls ++ nonblock s ∷ []) ++ ctl_add s ∷ [] }) w.1 h
      ∙ ap (λ x. record t { calls = x })
          (append_assoc (t.calls ++ nonblock s ∷ []) (ctl_add s ∷ []) (registrations socks)
            ∙ append_assoc t.calls (nonblock s ∷ []) (ctl_add s ∷ registrations socks))
