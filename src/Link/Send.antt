-- ===== src/Link/Send.antt =====
-- `Link::send` (server-5204/link.cpp): a packet written to the output buffer. The result is 0
-- whatever the appends return, so only the output changes.
use expert_spoon.Prelude.{List, [], ◌∷◌, Str, newline}
use expert_spoon.Buffer.{
  Buffer, Allocator, Appended, appended, refused, overflowed, stuck, append_record, append_char,
}
use expert_spoon.Link.{Link}

-- The buffer that an append leaves; the caller drops its result. A record too long for an `int` sum is not
-- followed further: the buffer stays as it was.
unfoldable pub buffer_of : Buffer → Appended → Buffer
buffer_of b (appended n c) = c
buffer_of b (refused c) = c
buffer_of b overflowed = b
buffer_of b stuck = b

module _ (a : Allocator) where
  unfoldable pub append_records : List Str → Buffer → Buffer
  unfolding append_record buffer_of
  append_records [] b = b
  append_records (s ∷ resp) b = append_records resp (buffer_of b (append_record a s b))

  unfoldable pub append_packet : List Str → Buffer → Buffer
  unfolding append_records append_char
  append_packet resp b = let c = append_records resp b in buffer_of c (append_char a newline c)

  -- send(const std::vector<std::string> &): an empty vector sends nothing
  unfoldable pub send : List Str → Link → Link
  unfolding append_packet
  send [] l = l
  send (s ∷ resp) l = record l { output = append_packet (s ∷ resp) l.output }

  -- send(const std::vector<Bytes> &), and the forms for one to five Bytes
  unfoldable pub send_bytes : List Str → Link → Link
  unfolding append_packet
  send_bytes resp l = record l { output = append_packet resp l.output }
