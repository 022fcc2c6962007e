-- ===== src/Buffer/Append.antt =====
-- `Buffer::append` in its forms and `Buffer::append_record` (bytes.cpp): what they write and return.
use expert_spoon.Prelude.{
  ℕ, ◌+◌, ◌≤◌, ◌<◌, ◌≡◌, refl, ap, ◌∙◌, [], ◌∷◌, ◌++◌, Str, arith, length, int_limit, leb, leb→le,
  leb→lt, Bool-cases, inl, inr,
}
use expert_spoon.Framing.{record_of, length-record_of}
use expert_spoon.Buffer.{
  Buffer, Allocator, contents, store, Appended, appended, refused, overflowed, stuck, Reserved,
  room, failed, spent, append, append_char, append_record, reserve, reserve_rounds,
}
use expert_spoon.Buffer.Window.{IsValid, contents-put, put-IsValid}
use expert_spoon.Buffer.Reserve.{Reserves, reserve-Reserves}

-- An append of `bytes` to `b`: all of them and their number, or none of them.
abbrev pub Appends : Str → Buffer → Appended → Type 0
Appends bytes b (appended n c) = IsValid c × (n ≡ length bytes) × (contents c ≡ contents b ++ bytes)
Appends bytes b (refused c) = IsValid c × (contents c ≡ contents b)
Appends bytes b overflowed = ⊥
Appends bytes b stuck = ⊥

-- An append of the record `s`, by whether the sum for its size is an `int`.
abbrev pub AppendsRecord : Str → Buffer → Appended → Type 0
AppendsRecord s b overflowed = int_limit ≤ 16 + length s + 1
AppendsRecord s b (appended n c) =
    (16 + length s + 1 < int_limit) × Appends (record_of s) b (appended n c)
AppendsRecord s b (refused c) =
    (16 + length s + 1 < int_limit) × Appends (record_of s) b (refused c)
AppendsRecord s b stuck = ⊥

Appends-AppendsRecord :
    (s : Str) (b : Buffer) (r : Appended)
    → 16 + length s + 1 < int_limit
    → Appends (record_of s) b r
    → AppendsRecord s b r
Appends-AppendsRecord s b (appended n c) h x = (h, x)
Appends-AppendsRecord s b (refused c) h x = (h, x)
Appends-AppendsRecord s b overflowed h x = absurd x
Appends-AppendsRecord s b stuck h x = x

store-Appends :
    (bytes : Str) (size : ℕ) (b : Buffer) (r : Reserved)
    → length bytes ≤ size
    → Reserves size b r
    → Appends bytes b (store bytes r)
unfolding store
store-Appends bytes size b (room c) h (v, k, e) =
    (put-IsValid bytes c v (omega arith), refl, contents-put bytes c v ∙ ap (λ s. s ++ bytes) e)
store-Appends bytes size b (failed c) h r = r
store-Appends bytes size b spent h r = r

module _ (a : Allocator) where
  -- `append` on a valid buffer writes all its bytes behind the contents and returns their number, or
  -- returns -1 and leaves the contents as they were; the buffer stays valid.
  pub append-Appends : (bytes : Str) (b : Buffer) → IsValid b → Appends bytes b (append a bytes b)
  unfolding append
  append-Appends bytes b v =
      store-Appends bytes (length bytes) b _ (omega arith) (reserve-Reserves a (length bytes) b v)

  pub append_char-Appends :
      (c : ℕ) (b : Buffer) → IsValid b → Appends (c ∷ []) b (append_char a c b)
  unfolding append_char
  append_char-Appends c b v = store-Appends (c ∷ []) 1 b _ (omega arith) (reserve-Reserves a 1 b v)

  -- `append_record` on a valid buffer: where the record's length and 17 bytes more are an `int`, it
  -- writes the length in decimal, a newline, the record and a newline behind the contents and
  -- returns their number, or returns -1 and leaves the contents, the buffer being valid again (the
  -- bytes reserved are enough); the sum passes an `int` for the longer records and for no other.
  pub append_record-Appends :
      (s : Str) (b : Buffer) → IsValid b → AppendsRecord s b (append_record a s b)
  unfolding append_record
  append_record-Appends s b v = elim (Bool-cases (leb int_limit (16 + length s + 1))) [
    | inl e ↦ rw (e, AppendsRecord) (leb→le _ _ e)
    | inr e ↦
        let small = leb→lt int_limit (16 + length s + 1) e in
        rw e (
          Appends-AppendsRecord s b
            (store (record_of s) (reserve a reserve_rounds (16 + length s + 1) b)) small
            (store-Appends (record_of s) (16 + length s + 1) b _
              (omega (arith, length-record_of s (omega (arith, small))))
              (reserve-Reserves a (16 + length s + 1) b v)))
  ]
