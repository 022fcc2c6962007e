-- ===== src/Mtcp/Wire.antt =====
-- The 50 bytes of a packet as a message and back (mtcp_kvstore/kvstore.c, kvstorelib/messages.h).
use expert_spoon.Prelude.{
  ◌≡◌, sym, ap, ap₂, ◌∙◌, arith, length, length-append, take, take-append_length,
  drop-append_length, take_all,
}
use expert_spoon.Kvstore.{Message}
use expert_spoon.Mtcp.{decode, encode, content_len}

-- The key and the value fill their arrays.
pub record IsWire (m : Message) : Type 0 where
  pub key_size : length m.key ≡ 16
  pub value_size : length m.value ≡ 32

pub length-encode : (m : Message) → IsWire m → length (encode m) ≡ content_len
unfolding encode
length-encode m w = omega (arith, length-append {0} m.key m.value, w.key_size, w.value_size)

-- A message whose key and value fill their arrays is read back from its 50 bytes.
pub decode-encode : (m : Message) → IsWire m → decode (encode m) ≡ m
unfolding decode encode
decode-encode m w =
    ap₂ (λ k v. record { operation = m.operation; keepalive = m.keepalive; key = k; value = v })
      (take-append_length m.key m.value 16 (sym w.key_size))
      (ap (take 32) (drop-append_length m.key m.value 16 (sym w.key_size))
        ∙ take_all 32 m.value (omega (arith, w.value_size)))
