-- ===== src/Link.antt =====
-- server-5204/link.h and link.cpp: class Link, one connection with its input and output buffers.
-- `sock` is `none` for -1. The two times (doubles that nothing reads) are left out, and so is
-- `recv_nw`/`send_nw`, which `set_nw_func` always sets to the two handlers of Server.antt.
pub mod Parse
pub mod Socket
pub mod Stream
pub mod Transfer
pub mod Send
pub mod Packet
pub mod RoundTrip
pub mod Safety
pub mod Framed
pub mod Scanned
pub mod Outcome
pub mod Client
pub mod Connect
use expert_spoon.Prelude.{ℕ, ◌*◌, Bool, true, false, Option, none, some, List, [], Str}
use expert_spoon.Buffer.{Buffer, Allocator}
use expert_spoon.Buffer

pub record Link : Type 0 where
  pub sock : Option ℕ
  pub noblock_ : Bool
  pub error_ : Bool
  pub recv_data : List Str
  pub remote_ip : Str
  pub remote_port : Option ℕ
  pub auth : Bool
  pub ignore_key_range : Bool
  pub input : Buffer
  pub output : Buffer
  pub imsg_q : List Buffer
  pub omsg_q : List Buffer

abbrev pub init_buffer_size : ℕ
init_buffer_size = 1024

abbrev pub max_packet_size : ℕ
max_packet_size = 128 * 1024 * 1024

-- Link()
unfoldable pub new : Allocator → Link
unfolding Buffer.new
new a = record {
  sock = none;
  noblock_ = false;
  error_ = false;
  recv_data = [];
  remote_ip = [];
  remote_port = none;
  auth = false;
  ignore_key_range = false;
  input = Buffer.new a init_buffer_size;
  output = Buffer.new a init_buffer_size;
  imsg_q = [];
  omsg_q = [];
}

unfoldable pub mark_error : Link → Link
mark_error l = record l { error_ = true }
