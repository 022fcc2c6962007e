-- ===== src/Lib.antt =====
-- A model of a key-value server (server-5204/) and of the library behind it (kvstorelib/), with the
-- theorems that make them correct.
--
-- The parts. A connection (class Link, server-5204/link.h and link.cpp) has an input and an output buffer
-- (class Buffer, server-5204/util/bytes.h and bytes.cpp). It reads and writes the socket, takes packets of
-- length-prefixed records from the input (`parse`) and puts them into the output (`send`). Fdevents
-- (server-5204/fde.h, fde.cpp, fde_epoll.cpp) tells the kernel which descriptors to watch. The server
-- (server-5204/net.cpp and msg.cpp) turns ready descriptors into calls of the two handlers `req_recv` and
-- `rsp_send`, which pass fixed-size messages to the store. The store is kvstorelib/kvstorelib.cpp over
-- libcuckoo's hash map.
--
-- The files.
--   Prelude      numbers, tests, lists, and the decimal text of a length
--   Framing      the header line of a record, which Buffer::read_record and Link::parse share
--   Buffer       class Buffer; below it Window (the invariant), Reserve (the loop round grow), Append,
--                ReadRecord
--   Link         class Link; below it Parse and Send (the operations on packets), Socket (the operations on
--                the socket), Packet, RoundTrip, Safety, Framed, Scanned and Outcome (what parse does), Stream and Transfer
--                (what the socket loops do), Client (flush, response and request; below it Flushing and Rounds),
--                Connect (is_ip, connect, listen, accept)
--   Kvstore      kvstorelib; below it Keys, Table (the store as a table) and History (requests in order)
--   Fde          class Fdevents in its epoll form; below it Entries, Sync and Failed, and
--                Select, the form for select(2) (server-5204/fde_select.cpp) with Bound and Clear
--   Server       the handlers and the main loop; below it Messages and Handlers
--   Mtcp         mtcp_kvstore/kvstore.c, a thread of the server over mTCP; below it Wire (a packet's bytes),
--                Loops, Serve (a request is answered) and Close
--   Strings      server-5204/util/strings.h: escaping, byte order, bit count; below it RoundTrip, Integers and Trim
--   Line         server-5204/util/line.h: escaped text in lines; below it RoundTrip
--   SortedSet    server-5204/util/sorted_set.h and sorted_set.cpp; below it Order, Items and Keeps (the lists
--                behind it), Table (add and del) and Ends (front, back and the pops)
--   Response     server-5204/resp.h and resp.cpp; below it Replies
--   Queues       server-5204/util/thread.h: Queue and SelectableQueue call by call; below it Calls
--   Pool         server-5204/util/thread.h: WorkerPool as steps of its threads; below it Reader, Counts (the
--                pipe's bytes), Conserve, Order (one worker), Progress and Finish
--   LinkedList   server-5204/util/list.h; below it Segment (links), Sequence (remove) and Refine (the list as a
--                sequence)
--   IpFilter     server-5204/util/ip_filter.h; below it Entries, Allowed and Hidden
--   Config       server-5204/util/config.cpp: the tree and its paths; below it Find and Lookup
--   Bytes        server-5204/util/bytes.h: Bytes and Decoder; below it Order and Reads
--   Checker      testclient/checkoutput.c: the expected responses; below it Store (against the store's table)
--   Tests        runs on small inputs, and each theorem with conditions applied at one
--
-- State and operations. Every operation takes the state and returns the state after it with its result. A
-- pointer that is only compared is a number; `sock == -1` and NULL are `none`. A Buffer's `data_` is the
-- offset in its block. The answers of the kernel to calls of read and write are a list that the operation
-- consumes, so a theorem for all lists is a theorem for every order of data, interruptions and errors.
--
-- Numbers. An `int` that the code keeps below 2^31 is a number, and the invariant Buffer.Window.IsValid
-- states the bound; `grow` writes its wrap-around out, `atoi` too. Where the code adds `int`s that may pass
-- the limit (parse, read_record, append_record) the result is a value of its own, `overflow` or `overflowed`.
-- The conversion of a string's size to `int` in str_escape, str_unescape and LineDecoder is
-- Strings.int_size; an entry of an IpFilter is shorter than 2^31 characters. `malloc` is taken to succeed in
-- the constructor of Buffer, which does not test it.
--
-- Fuel. The loop round `grow` has 19 rounds: the first makes the block 8 KB or more, and from there a block
-- below 2^31 bytes doubles at most 18 times before realloc is asked for more than PTRDIFF_MAX and refuses
-- (Buffer.Reserve). The record loop of `parse` has one round more than it has bytes, and every round that
-- goes on takes one (Link.Safety). The socket loops consume an answer in each round. The waiting
-- calls (flush, response) end only when the kernel lets them, so they take the number of rounds they may
-- make; flush needs no more than there are answers (Link.Client.Rounds).
--
-- Parameters, for code that is not part of the repository. Buffer.Allocator is malloc and realloc,
-- Fde.Epoll is epoll_ctl, Kvstore.CuckooMap is libcuckoo's map, and Server.Handler is the store that the
-- handlers call with two arguments (kvstorelib declares one). Their fields state documented behaviour;
-- module Tests has a concrete one of each. What mTCP, pthreads and a pipe answer are arguments of Mtcp's and
-- Queues' functions, and a worker's `proc`, which a user of WorkerPool writes, is one of Pool's.
--
-- Not modelled: in server-5204/util the log, the application shell, the loading and saving of Config, and the
-- conversions between text and numbers; the start-up of the mTCP program and its threads side by side; the
-- clients but for the expected responses of checkoutput.c. None of the parts above depends on what they compute. Times, socket options and messages on
-- stderr are left out of the parts that are modelled, and a request with an unknown operation, which ends
-- the process, is a result of its own in Kvstore and outside Server's Handler.
pub mod Prelude
pub mod Framing
pub mod Buffer
pub mod Link
pub mod Kvstore
pub mod Fde
pub mod Server
pub mod Strings
pub mod Line
pub mod SortedSet
pub mod Response
pub mod Mtcp
pub mod Queues
pub mod Pool
pub mod LinkedList
pub mod IpFilter
pub mod Config
pub mod Bytes
pub mod Checker
mod Tests
