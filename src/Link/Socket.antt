-- ===== src/Link/Socket.antt =====
-- `Link::read`, `msg_read`, `write` and `msg_write` (server-5204/link.cpp): the loops round
-- the system calls. The kernel is a list of answers to the calls to come; a call that finds the list
-- empty is answered by EWOULDBLOCK.
use expert_spoon.Prelude.{
  ℕ, ◌+◌, Bool, Option, none, some, List, [], ◌∷◌, ◌++◌, Str, ltb, ◌==◌, if◌then◌else◌, length,
  take, drop, min,
}
use expert_spoon.Buffer.{Buffer, Allocator, contents, space, is_empty, put, decr, nice, grow}
use expert_spoon.Buffer
use expert_spoon.Link.{Link, init_buffer_size}

-- Answers to `::read`: bytes that wait in the socket (none of them is the end of the stream; a call
-- takes what fits), EINTR, EWOULDBLOCK and any other error.
pub data Arrival : Type 0 where
  got : Str → Arrival
  read_interrupted : Arrival
  read_would_block : Arrival
  read_failed : Arrival

-- Answers to `::write`: the socket has room for so many bytes, EINTR, EWOULDBLOCK, any other error.
pub data Departure : Type 0 where
  accepted : ℕ → Departure
  write_interrupted : Departure
  write_would_block : Departure
  write_failed : Departure

-- How the reading loop ends: by its tests, by the end of the stream, by an error.
pub data ReadEnd : Type 0 where
  stopped closed failed : ReadEnd

pub record Filled : Type 0 where
  pub end : ReadEnd
  pub ret : ℕ
  pub buffer : Buffer
  pub rest : List Arrival

-- while((want = space()) > 0){ len = ::read(sock, slot(), want); … }
unfoldable pub fill : Bool → List Arrival → Buffer → ℕ → Filled
fill noblock [] b ret = record { end = stopped; ret = ret; buffer = b; rest = [] }
fill noblock (read_interrupted ∷ es) b ret =
    let again = fill noblock es b ret in
    if space b == 0
    then record { end = stopped; ret = ret; buffer = b; rest = read_interrupted ∷ es }
    else again
fill noblock (read_would_block ∷ es) b ret = record {
  end = stopped;
  ret = ret;
  buffer = b;
  rest = if space b == 0 then read_would_block ∷ es else es;
}
fill noblock (read_failed ∷ es) b ret =
    if space b == 0
    then record { end = stopped; ret = ret; buffer = b; rest = read_failed ∷ es }
    else record { end = failed; ret = ret; buffer = b; rest = es }
fill noblock (got [] ∷ es) b ret =
    if space b == 0
    then record { end = stopped; ret = ret; buffer = b; rest = got [] ∷ es }
    else record { end = closed; ret = ret; buffer = b; rest = es }
-- Where more bytes wait than fit, the buffer is full after the call and the loop's test ends it.
fill noblock (got (c ∷ s) ∷ es) b ret =
    let want = space b in
    let len = length (c ∷ s) in
    let again = fill noblock es (put (c ∷ s) b) (ret + len) in
    if want == 0
    then record { end = stopped; ret = ret; buffer = b; rest = got (c ∷ s) ∷ es }
    else if ltb want len
    then record {
      end = stopped;
      ret = ret + want;
      buffer = put (take want (c ∷ s)) b;
      rest = got (drop want (c ∷ s)) ∷ es;
    }
    else if noblock
    then again
    else record { end = stopped; ret = ret + len; buffer = put (c ∷ s) b; rest = es }

pub record Drained : Type 0 where
  pub end : ReadEnd
  pub ret : ℕ
  pub buffer : Buffer
  pub wire : Str
  pub rest : List Departure

-- while((want = size()) > 0){ len = ::write(sock, data(), want); … }; `wire` is what was sent so far.
unfoldable pub drain : Bool → List Departure → Buffer → ℕ → Str → Drained
drain noblock [] b ret wire = record {
  end = stopped;
  ret = ret;
  buffer = b;
  wire = wire;
  rest = [];
}
drain noblock (write_interrupted ∷ es) b ret wire =
    let again = drain noblock es b ret wire in
    if is_empty b
    then record { end = stopped; ret = ret; buffer = b; wire = wire; rest = write_interrupted ∷ es }
    else again
drain noblock (write_would_block ∷ es) b ret wire = record {
  end = stopped;
  ret = ret;
  buffer = b;
  wire = wire;
  rest = if is_empty b then write_would_block ∷ es else es;
}
drain noblock (write_failed ∷ es) b ret wire =
    if is_empty b
    then record { end = stopped; ret = ret; buffer = b; wire = wire; rest = write_failed ∷ es }
    else record { end = failed; ret = ret; buffer = b; wire = wire; rest = es }
drain noblock (accepted n ∷ es) b ret wire =
    let len = min n b.size_ in
    let sent = wire ++ take len (contents b) in
    let again = drain noblock es (decr len b) (ret + len) sent in
    if is_empty b
    then record { end = stopped; ret = ret; buffer = b; wire = wire; rest = accepted n ∷ es }
    else if len == 0
    then record { end = stopped; ret = ret; buffer = b; wire = wire; rest = es }
    else if noblock
    then again
    else record { end = stopped; ret = ret + len; buffer = decr len b; wire = sent; rest = es }

-- -1 (`none`) on an error; else the bytes sent, and the buffer moves its window.
abbrev pub write_end : ReadEnd → Drained → Option ℕ × Buffer × Str × List Departure
write_end failed d = (none, d.buffer, d.wire, d.rest)
write_end stopped d = (some d.ret, nice d.buffer, d.wire, d.rest)
write_end closed d = (some d.ret, nice d.buffer, d.wire, d.rest)

module _ (a : Allocator) where
  -- if(total() == INIT_BUFFER_SIZE) grow(); a failure is not looked at
  unfoldable pub grow_initial : Buffer → Buffer
  grow_initial b =
      if b.total_ == init_buffer_size then elim (grow a b) [ none ↦ b | some c ↦ c ] else b

  abbrev pub return_read : Filled → Option ℕ
  return_read f = elim f.end [ stopped ↦ some f.ret | closed ↦ some 0 | failed ↦ none ]

  -- `none` is -1; 0 is also the end of the stream.
  unfoldable pub read : List Arrival → Link → Option ℕ × Link × List Arrival
  read es l =
      let f = fill l.noblock_ es (nice (grow_initial l.input)) 0 in
      (return_read f, record l { input = f.buffer }, f.rest)

  -- `none` is NULL
  unfoldable pub msg_read : List Arrival → Link → Option Buffer × List Arrival
  msg_read es l =
      let f = fill l.noblock_ es (nice (grow_initial (Buffer.new a init_buffer_size))) 0 in
      (elim f.end [ stopped ↦ some f.buffer | closed ↦ none | failed ↦ none ], f.rest)

  unfoldable pub write_buffer :
      Bool → List Departure → Buffer → Option ℕ × Buffer × Str × List Departure
  write_buffer noblock es b = let d = drain noblock es (grow_initial b) 0 [] in write_end d.end d

  unfoldable pub write : List Departure → Link → Option ℕ × Link × Str × List Departure
  write es l =
      let (ret, b, wire, rest) = write_buffer l.noblock_ es l.output in
      (ret, record l { output = b }, wire, rest)

  unfoldable pub msg_write :
      List Departure → Link → Buffer → Option ℕ × Buffer × Str × List Departure
  msg_write es l smsg = write_buffer l.noblock_ es smsg
