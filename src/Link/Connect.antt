-- ===== src/Link/Connect.antt =====
-- `is_ip`, `Link::connect`, `listen` and `accept` (server-5204/link.cpp). The answers of the system calls
-- and of the resolver are arguments; each result comes with the descriptor that was closed, if any.
use expert_spoon.Prelude.{
  ℕ, ◌+◌, ◌≡◌, refl, Bool, false, ◌&&◌, Option, none, some, inl, inr, List, [], ◌∷◌, Str, leb, ◌==◌,
  if◌then◌else◌, take, Option-cases, Bool-cases,
}
use expert_spoon.Prelude.Decimal.{is_digit}
use expert_spoon.Buffer.{Allocator}
use expert_spoon.Link
use expert_spoon.Link.{Link}

-- The loop with `dot_count` and `digit_count`; the digits behind the last dot are not counted.
unfoldable pub is_ip_from : ℕ → ℕ → Str → Bool
is_ip_from dots digits [] = dots == 3
is_ip_from dots digits (c ∷ host) =
    let after_dot = is_ip_from (dots + 1) 0 host in
    let after_digit = is_ip_from dots (digits + 1) host in
    if c == b'.'
    then (if leb 1 digits && leb digits 3 then after_dot else false)
    else if is_digit c
    then after_digit
    else false

unfoldable pub is_ip : Str → Bool
is_ip host = is_ip_from 0 0 host

-- The address that is connected to: a name is replaced by the first address that the resolver gives.
unfoldable pub address : Str → Option Str → Str
address host resolved = if is_ip host then host else (elim resolved [ none ↦ host | some ip ↦ ip ])

-- What the calls of `listen` and `connect` answer: the descriptor of `socket`, and whether each of the
-- others succeeds.
pub record Calls : Type 0 where
  pub socket : Option ℕ
  pub reuse : Bool
  pub bind : Bool
  pub listening : Bool
  pub connected : Bool

-- One answer of `::accept`: EINTR, another error, or a connection with its address and port.
pub data Accepted : Type 0 where
  accept_interrupted : Accepted
  accept_failed : Accepted
  connection : ℕ → Str → ℕ → Accepted

-- sizeof(remote_ip) - 1
abbrev pub ip_room : ℕ
ip_room = 15

-- The link, or `none` for NULL, and the descriptor closed at `sock_err`.
abbrev pub Opened : Type 0
Opened = Option Link × Option ℕ

module _ (a : Allocator) where
  unfoldable pub connect : Calls → Opened
  connect calls = elim calls.socket [
    | none ↦ (none, none)
    | some fd ↦
        if calls.connected
        then (some (record (Link.new a) { sock = some fd }), none)
        else (none, some fd)
  ]

  unfoldable pub listen : Str → ℕ → Calls → Opened
  listen ip port calls = elim calls.socket [
    | none ↦ (none, none)
    | some fd ↦
        if calls.reuse && (calls.bind && calls.listening)
        then (
          some (record (Link.new a) {
            sock = some fd;
            remote_ip = take ip_room ip;
            remote_port = some port;
          }),
          none,
        )
        else (none, some fd)
  ]

  -- while((client_sock = ::accept(...)) == -1) if(errno != EINTR) return NULL; where the answers run out
  -- the call still waits.
  unfoldable pub accept : List Accepted → Option Link
  accept [] = none
  accept (accept_interrupted ∷ answers) = accept answers
  accept (accept_failed ∷ answers) = none
  accept (connection fd ip port ∷ answers) =
      some (record (Link.new a) {
        sock = some fd;
        remote_ip = take ip_room ip;
        remote_port = some port;
      })

  -- A link that is opened holds the descriptor of `socket`, and nothing was closed; where none is, the
  -- descriptor that `socket` gave was closed.
  abbrev pub Owned : Option ℕ → Opened → Type 0
  Owned socket (none, closed) = closed ≡ socket
  Owned socket (some l, closed) = (l.sock ≡ socket) × (closed ≡ none)

  -- `listen` leaks no descriptor, whichever call fails: a link that it returns holds the one that
  -- `socket` gave, which is not closed, and where it returns none that descriptor was closed.
  pub listen-Owned :
      (ip : Str) (port : ℕ) (calls : Calls) → Owned calls.socket (listen ip port calls)
  unfolding listen
  listen-Owned ip port calls = elim (Option-cases calls.socket) [
    | inl e ↦ rw (e, listen) refl
    | inr (fd, e) ↦ elim (Bool-cases (calls.reuse && (calls.bind && calls.listening))) [
      | inl b ↦ rw (e, b, listen) (refl, refl)
      | inr b ↦ rw (e, b, listen) refl
    ]
  ]

  pub connect-Owned : (calls : Calls) → Owned calls.socket (connect calls)
  unfolding connect
  connect-Owned calls = elim (Option-cases calls.socket) [
    | inl e ↦ rw (e, connect) refl
    | inr (fd, e) ↦ elim (Bool-cases calls.connected) [
      | inl b ↦ rw (e, b, connect) (refl, refl)
      | inr b ↦ rw (e, b, connect) refl
    ]
  ]
