-- ===== src/Buffer.antt =====
-- server-5204/util/bytes.h and bytes.cpp: class Buffer, a growing memory block with a window of
-- valid bytes. `data_` is the window's offset in `buf` (the source's `data_ - buf`). What `malloc`
-- and `realloc` hand out is an `Allocator`.
pub mod Window
pub mod Reserve
pub mod Append
pub mod ReadRecord
use expert_spoon.Prelude.{
  ℕ, zero, suc, ◌+◌, ◌-◌, ◌*◌, ◌/◌, ◌%◌, ◌^◌, ◌≤◌, ◌≡◌, Bool, true, false, Option, none, some, [],
  ◌∷◌, ◌++◌, Str, newline, ltb, leb, ◌==◌, if◌then◌else◌, length, take, drop, int_limit,
}
use expert_spoon.Framing.{record_of}

pub record Buffer : Type 0 where
  pub memory : Str
  pub data_ : ℕ
  pub size_ : ℕ
  pub total_ : ℕ
  pub origin_total : ℕ

-- The C library's heap. `malloc n` is a block of `n` bytes of any contents. `realloc m n` is the
-- block moved to `n` bytes, or `none` for NULL; the old bytes stay, and a size above PTRDIFF_MAX
-- is refused.
pub record Allocator : Type 0 where
  pub malloc : ℕ → Str
  pub realloc : Str → ℕ → Option Str
  pub length-malloc : (n : ℕ) → length (malloc n) ≡ n
  pub length-realloc : (m : Str) (n : ℕ) (p : Str) → realloc m n ≡ some p → length p ≡ n
  pub take-realloc :
      (m : Str) (n : ℕ) (p : Str) → realloc m n ≡ some p → length m ≤ n → take (length m) p ≡ m
  pub realloc_limit : (m : Str) (n : ℕ) → 2 ^ 63 ≤ n → realloc m n ≡ none

-- The bytes of the window: what `data()` and `size()` describe.
abbrev pub contents : Buffer → Str
contents b = take b.size_ (drop b.data_ b.memory)

abbrev pub space : Buffer → ℕ
space b = b.total_ - b.data_ - b.size_

abbrev pub slot : Buffer → ℕ
slot b = b.data_ + b.size_

abbrev pub is_empty : Buffer → Bool
is_empty b = b.size_ == 0

-- Buffer(int total), where malloc gives a block: what it returns is not tested.
unfoldable pub new : Allocator → ℕ → Buffer
new a total = record {
  memory = a.malloc total;
  data_ = 0;
  size_ = 0;
  total_ = total;
  origin_total = total;
}

-- Buffer(char *ptr, int sz): the block is full.
unfoldable pub wrap : Str → Buffer
wrap p = record {
  memory = p;
  data_ = 0;
  size_ = length p;
  total_ = length p;
  origin_total = length p;
}

unfoldable pub incr : ℕ → Buffer → Buffer
incr num b = record b { size_ = b.size_ + num }

unfoldable pub decr : ℕ → Buffer → Buffer
decr num b = record b { size_ = b.size_ - num; data_ = b.data_ + num }

-- memcpy(m + off, bytes, length bytes)
unfoldable pub overwrite : Str → ℕ → Str → Str
overwrite m off bytes = take off m ++ (bytes ++ drop (off + length bytes) m)

unfoldable pub nice : Buffer → Buffer
unfolding overwrite
nice b =
    if ltb (b.total_ / 2) b.data_
    then record b { memory = overwrite b.memory 0 (contents b); data_ = 0 }
    else b

-- The new size in `grow`, an `int` computed with wrap-around.
unfoldable pub grown : ℕ → ℕ
grown total =
    if ltb total (8 * 1024)
    then 8 * 1024
    else if ltb total (512 * 1024)
    then (8 * total) % 2 ^ 32
    else (2 * total) % 2 ^ 32

-- An `int` given by its 32 bits, as `size_t`: a negative number is a huge one.
unfoldable pub int_to_size : ℕ → ℕ
int_to_size n = if ltb n int_limit then n else n + (2 ^ 64 - 2 ^ 32)

-- What the loop `while(size > space()) if(grow() == -1) return -1;` ends in. `spent` stands for
-- fuel that ran out.
pub data Reserved : Type 0 where
  room : Buffer → Reserved
  failed : Buffer → Reserved
  spent : Reserved

-- What an append returns: the bytes written, or -1 (`refused`); or it computes a size that no `int` holds,
-- and what happens then is undefined (`overflowed`).
pub data Appended : Type 0 where
  appended : ℕ → Buffer → Appended
  refused : Buffer → Appended
  overflowed : Appended
  stuck : Appended

-- memcpy(slot(), bytes, size); size_ += size;
unfoldable pub put : Str → Buffer → Buffer
unfolding overwrite
put bytes b = record b {
  memory = overwrite b.memory (slot b) bytes;
  size_ = b.size_ + length bytes;
}

unfoldable pub store : Str → Reserved → Appended
unfolding put
store bytes (room b) = appended (length bytes) (put bytes b)
store bytes (failed b) = refused b
store bytes spent = stuck

-- The most rounds that a reservation makes: from 8192 a size below 2^31 doubles 18 times.
abbrev pub reserve_rounds : ℕ
reserve_rounds = 19

module _ (a : Allocator) where
  -- `none` is -1; the buffer is then as it was.
  unfoldable pub grow : Buffer → Option Buffer
  unfolding grown int_to_size
  grow b = elim (a.realloc b.memory (int_to_size (grown b.total_))) [
    | none ↦ none
    | some p ↦ some (record b { memory = p; total_ = grown b.total_ })
  ]

  unfoldable pub reserve : ℕ → ℕ → Buffer → Reserved
  reserve zero size b = spent
  reserve (suc fuel) size b = elim (ltb (space b) size) [
    | false ↦ room b
    | true ↦ elim (grow b) [ none ↦ failed b | some c ↦ reserve fuel size c ]
  ]

  unfoldable pub append_char : ℕ → Buffer → Appended
  unfolding reserve store
  append_char c b = store (c ∷ []) (reserve reserve_rounds 1 b)

  unfoldable pub append : Str → Buffer → Appended
  unfolding reserve store
  append bytes b = store bytes (reserve reserve_rounds (length bytes) b)

  -- 16 is room for the length's text
  unfoldable pub append_record : Str → Buffer → Appended
  unfolding reserve store record_of
  append_record s b =
      if leb int_limit (16 + length s + 1)
      then overflowed
      else store (record_of s) (reserve reserve_rounds (16 + length s + 1) b)
