-- ===== src/Buffer/Window.antt =====
-- Buffer's window (bytes.h, `Buffer::nice`): the invariant, and what moving the window keeps.
use expert_spoon.Prelude.{
  drop-append_ge, drop-drop, ℕ, ◌+◌, ◌-◌, ◌/◌, ◌≤◌, ◌<◌, ◌≡◌, refl, sym, ap, ◌∙◌, inl, inr, ◌++◌,
  Str, arith, ltb, ltb→lt, Bool-cases, length, take, drop, int_limit, length-append, length-take,
  length-drop, take-append_length, append_assoc, drop-append_le, drop-take, take_all,
}
use expert_spoon.Buffer.{
  Buffer, Allocator, contents, space, slot, decr, overwrite, nice, put, new, wrap,
}

-- The window lies in the block, and `total_` is the block's size, an `int`.
pub record IsValid (b : Buffer) : Type 0 where
  pub fits : b.data_ + b.size_ ≤ b.total_
  pub allocated : length b.memory ≡ b.total_
  pub small : b.total_ < int_limit

pub length-contents : (b : Buffer) → IsValid b → length (contents b) ≡ b.size_
length-contents b v =
    omega (arith, length-take b.size_ (drop b.data_ b.memory), length-drop b.data_ b.memory)

pub length-overwrite :
    (m : Str) (off : ℕ) (bytes : Str)
    → off + length bytes ≤ length m
    → length (overwrite m off bytes) ≡ length m
unfolding overwrite
length-overwrite m off bytes h = omega (
  arith,
  length-append {0} (take off m) (bytes ++ drop (off + length bytes) m),
  length-append {0} bytes (drop (off + length bytes) m),
  length-take off m,
  length-drop (off + length bytes) m,
)

nice-IsValid_moved :
    (b : Buffer)
    → IsValid b
    → b.total_ / 2 < b.data_
    → length (overwrite b.memory 0 (contents b)) ≡ b.total_
nice-IsValid_moved b v h =
    length-overwrite b.memory 0 (contents b) (omega (arith, length-contents b v)) ∙ v.allocated

-- Moving the window keeps the invariant.
pub nice-IsValid : (b : Buffer) → IsValid b → IsValid (nice b)
unfolding nice
nice-IsValid b v = elim (Bool-cases (ltb (b.total_ / 2) b.data_)) [
  | inl e ↦ rw e (record {
    fits = omega (arith, v.fits);
    allocated = nice-IsValid_moved b v (ltb→lt _ _ e);
    small = v.small;
  })
  | inr e ↦ rw e v
]

contents_moved : (m c : Str) (s : ℕ) → s ≡ length c → take s (drop 0 (overwrite m 0 c)) ≡ c
unfolding overwrite
contents_moved m c s h = take-append_length c (drop (0 + length c) m) s h

-- `nice` keeps the contents of a valid buffer.
pub contents-nice : (b : Buffer) → IsValid b → contents (nice b) ≡ contents b
unfolding nice
contents-nice b v = elim (Bool-cases (ltb (b.total_ / 2) b.data_)) [
  | inl e ↦ rw e (contents_moved b.memory (contents b) b.size_ (sym (length-contents b v)))
  | inr e ↦ rw e refl
]

drop_overwritten :
    (m c : Str) (d : ℕ) → length c ≤ d → d ≤ length m → drop d (overwrite m 0 c) ≡ drop d m
unfolding overwrite
drop_overwritten m c d h k =
    drop-append_ge c (drop (0 + length c) m) d h
    ∙ drop-drop (d - length c) (0 + length c) d m (omega arith)

-- `nice` on a valid buffer writes no byte from the old window's start on, so that what points into
-- the old window stays valid.
pub drop-nice : (b : Buffer) → IsValid b → drop b.data_ (nice b).memory ≡ drop b.data_ b.memory
unfolding nice
drop-nice b v = elim (Bool-cases (ltb (b.total_ / 2) b.data_)) [
  | inl e ↦ rw e (
      drop_overwritten b.memory (contents b) b.data_
        (omega (arith, length-contents b v, ltb→lt _ _ e, v.fits))
        (omega (arith, v.fits, v.allocated)))
  | inr e ↦ rw e refl
]

-- `nice` on a valid buffer gives a valid buffer with the same contents, and writes no byte from the
-- old window's start on, so that what points into the old window stays valid.
pub nice_lem :
    (b : Buffer)
    → IsValid b
    → IsValid (nice b)
      × (contents (nice b) ≡ contents b)
      × (drop b.data_ (nice b).memory ≡ drop b.data_ b.memory)
nice_lem b v = (nice-IsValid b v, contents-nice b v, drop-nice b v)

-- After it, at least half of the block lies behind the window's start.
pub data-nice : (b : Buffer) → (nice b).data_ ≤ b.total_ / 2
unfolding nice
data-nice b = ground arith

-- Storing bytes behind the window.
window_after_put :
    (m bytes : Str) (d s k : ℕ)
    → k ≡ s + length bytes
    → d + s ≤ length m
    → take k (drop d (overwrite m (d + s) bytes)) ≡ take s (drop d m) ++ bytes
unfolding overwrite
window_after_put m bytes d s k e h =
    let rest = drop (d + s + length bytes) m in
    ap (take k)
      (drop-append_le (take (d + s) m) (bytes ++ rest) d (omega (arith, length-take (d + s) m)))
    ∙ ap (λ front. take k (front ++ (bytes ++ rest))) (drop-take d s m)
    ∙ ap (take k) (sym (append_assoc (take s (drop d m)) bytes rest))
    ∙ take-append_length (take s (drop d m) ++ bytes) rest k (
        omega (
          arith,
          length-append {0} (take s (drop d m)) bytes,
          length-take s (drop d m),
          length-drop d m,
        ))

pub contents-put :
    (bytes : Str) (b : Buffer) → IsValid b → contents (put bytes b) ≡ contents b ++ bytes
unfolding put
contents-put bytes b v =
    window_after_put b.memory bytes b.data_ b.size_ (b.size_ + length bytes) refl
      (omega (arith, v.fits, v.allocated))

pub put-IsValid :
    (bytes : Str) (b : Buffer) → IsValid b → length bytes ≤ space b → IsValid (put bytes b)
unfolding put
put-IsValid bytes b v h = record {
  fits = omega (arith, v.fits);
  allocated =
      length-overwrite b.memory (slot b) bytes (omega (arith, v.fits, v.allocated)) ∙ v.allocated;
  small = v.small;
}

pub contents-decr : (n : ℕ) (b : Buffer) → n ≤ b.size_ → contents (decr n b) ≡ drop n (contents b)
unfolding decr
contents-decr n b h =
    let e : n + (b.size_ - n) ≡ b.size_ = omega arith in
    ap (take (b.size_ - n)) (sym (drop-drop n b.data_ (b.data_ + n) b.memory (omega arith)))
    ∙ sym (drop-take n (b.size_ - n) (drop b.data_ b.memory))
    ∙ ap (λ k. drop n (take k (drop b.data_ b.memory))) e

pub decr-IsValid : (n : ℕ) (b : Buffer) → n ≤ b.size_ → IsValid b → IsValid (decr n b)
unfolding decr
decr-IsValid n b h v = record {
  fits = omega (arith, v.fits);
  allocated = v.allocated;
  small = v.small;
}

pub new-IsValid : (a : Allocator) (n : ℕ) → n < int_limit → IsValid (new a n)
unfolding new
new-IsValid a n h = record { fits = omega arith; allocated = a.length-malloc n; small = h }

pub wrap-IsValid : (p : Str) → length p < int_limit → IsValid (wrap p)
unfolding wrap
wrap-IsValid p h = record { fits = omega arith; allocated = refl; small = h }

pub contents-wrap : (p : Str) → contents (wrap p) ≡ p
unfolding wrap
contents-wrap p = take_all (length p) p (omega arith)
