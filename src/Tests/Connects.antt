-- ===== src/Tests/Connects.antt =====
-- Addresses and the calls that open a connection.
use expert_spoon.Prelude.{◌≡◌, refl, true, false, some, [], ◌∷◌, Str}
use expert_spoon.Link.Connect.{is_ip, is_ip_from, Calls, listen, Owned, listen-Owned}
use expert_spoon.Tests.Heap.{heap}

-- "1.2.3." has no digits behind its last dot.
abbrev three_groups : Str
three_groups = b'1' ∷ b'.' ∷ b'2' ∷ b'.' ∷ b'3' ∷ b'.' ∷ []

is_ip_runs : is_ip three_groups ≡ true
unfolding is_ip is_ip_from
is_ip_runs = refl

-- The port is taken: `bind` fails.
abbrev port_taken : Calls
port_taken = record {
  socket = some 4;
  reuse = true;
  bind = false;
  listening = true;
  connected = false;
}

listen-Owned_example : Owned heap (some 4) (listen heap three_groups 80 port_taken)
listen-Owned_example = listen-Owned heap three_groups 80 port_taken
