-- ===== src/Link/Transfer.antt =====
-- `Link::read`, `msg_read`, `write` and `msg_write` (server-5204/link.cpp), whole calls.
use expert_spoon.Prelude.{
  ℕ, ◌+◌, ◌≤◌, ◌≡◌, refl, ap, subst, ◌∙◌, Bool, inl, inr, Option, none, some, List, [], ◌++◌, Str,
  arith, ◌==◌, ==→eq, length, Bool-cases, Option-cases,
}
use expert_spoon.Buffer
use expert_spoon.Buffer.{Buffer, Allocator, contents, nice, grow, grown}
use expert_spoon.Buffer.Window.{IsValid, nice-IsValid, contents-nice, length-contents, new-IsValid}
use expert_spoon.Buffer.Reserve.{grow-Grows, Grows-IsValid, contents-Grows}
use expert_spoon.Link.{Link, init_buffer_size}
use expert_spoon.Link.Socket.{
  Arrival, Departure, stopped, closed, failed, fill, Drained, drain, grow_initial, read, msg_read,
  write_buffer, write, ReadEnd, write_end,
}
use expert_spoon.Link.Stream.{pending, fill-Fills, Drains, drain-Drains}

total-nice : (b : Buffer) → (nice b).total_ ≡ b.total_
unfolding nice
total-nice b = ground arith

-- A buffer that holds the same bytes, in a block that grew by 7168 bytes at most.
abbrev Same : Buffer → Buffer → Type 0
Same b c = IsValid c × (contents c ≡ contents b) × (c.total_ ≤ b.total_ + 7168)

grown_initial : (t : ℕ) → t ≡ init_buffer_size → grown t ≤ t + 7168
unfolding grown
grown_initial t h = ground arith

-- What a whole write did: the bytes on the wire and the bytes left are those there were, and a return
-- value other than -1 is the number of bytes on the wire.
abbrev pub Writes : Buffer → Option ℕ × Buffer × Str × List Departure → Type 0
Writes b (none, c, wire, rest) = IsValid c × (wire ++ contents c ≡ contents b)
Writes b (some n, c, wire, rest) = IsValid c × (wire ++ contents c ≡ contents b) × (n ≡ length wire)

write_end-Writes :
    (b : Buffer) (e : ReadEnd) (d : Drained) (c : Buffer)
    → Drains c 0 [] d
    → contents c ≡ contents b
    → Writes b (write_end e d)
write_end-Writes b failed d c r e = (r.valid, r.stream ∙ e)
write_end-Writes b stopped d c r e = (
  nice-IsValid d.buffer r.valid,
  ap (λ x. d.wire ++ x) (contents-nice d.buffer r.valid) ∙ r.stream ∙ e,
  omega (arith, r.counted),
)
write_end-Writes b closed d c r e = (
  nice-IsValid d.buffer r.valid,
  ap (λ x. d.wire ++ x) (contents-nice d.buffer r.valid) ∙ r.stream ∙ e,
  omega (arith, r.counted),
)

contents-new : (a : Allocator) (n : ℕ) → contents (Buffer.new a n) ≡ []
unfolding Buffer.new
contents-new a n = refl

module _ (a : Allocator) where
  grow_initial-Same : (b : Buffer) → IsValid b → Same b (grow_initial a b)
  unfolding grow_initial
  grow_initial-Same b v = elim (Bool-cases (b.total_ == init_buffer_size)) [
    | inr e ↦ rw (e, Same) (v, refl, omega arith)
    | inl e ↦ elim (Option-cases (grow a b)) [
      | inl e' ↦ rw (e, e', Same) (v, refl, omega arith)
      | inr (c, e') ↦
          let g = grow-Grows a b c v e' in
          rw (e, e', Same)
            (
              Grows-IsValid a b c v g,
              contents-Grows a b c v g,
              omega (arith, g.total, grown_initial b.total_ (==→eq b.total_ init_buffer_size e)),
            )
    ]
  ]

  prepared-Same : (b : Buffer) → IsValid b → Same b (nice (grow_initial a b))
  prepared-Same b v =
      let (w, e, t) = grow_initial-Same b v in
      (
        nice-IsValid (grow_initial a b) w,
        contents-nice (grow_initial a b) w ∙ e,
        omega (arith, total-nice (grow_initial a b)),
      )

  -- Whatever `read` returns on a valid input, the input stays valid, and its contents with what the
  -- kernel has yet to deliver are the same bytes as before.
  pub read-stream :
      (es : List Arrival) (l : Link)
      → IsValid l.input
      → IsValid (read a es l).1.input
        × (contents (read a es l).1.input ++ pending (read a es l).2
            ≡ contents l.input ++ pending es)
  unfolding read
  read-stream es l v =
      let (w, e, _) = prepared-Same l.input v in
      let b = nice (grow_initial a l.input) in
      let f = fill-Fills l.noblock_ es b 0 w in (f.valid, f.stream ∙ ap (λ x. x ++ pending es) e)

  msg_read_parts :
      (es : List Arrival) (l : Link) (msg : Buffer)
      → (msg_read a es l).0 ≡ some msg
      → (fill l.noblock_ es (nice (grow_initial a (Buffer.new a init_buffer_size))) 0).buffer ≡ msg
  unfolding msg_read
  msg_read_parts es l msg h = ground arith

  -- A buffer that `msg_read` returns is valid, holds at most 8192 bytes, and these are the first
  -- that the kernel had to deliver.
  pub msg_read-stream :
      (es : List Arrival) (l : Link) (msg : Buffer)
      → (msg_read a es l).0 ≡ some msg
      → IsValid msg
        × (length (contents msg) ≤ 8192)
        × (contents msg ++ pending (msg_read a es l).1 ≡ pending es)
  unfolding msg_read
  msg_read-stream es l msg h =
      let start = Buffer.new a init_buffer_size in
      let (w, e, t) = prepared-Same start (new-IsValid a init_buffer_size (omega arith)) in
      let b = nice (grow_initial a start) in
      let f = fill l.noblock_ es b 0 in
      let r = fill-Fills l.noblock_ es b 0 w in
      let size : length (contents f.buffer) ≤ 8192 =
        omega (arith, length-contents f.buffer r.valid, r.valid.fits, r.same_block, t, new_total) in
      let same = msg_read_parts es l msg h in
      (
        subst IsValid same r.valid,
        subst (λ m. length (contents m) ≤ 8192) same size,
        subst (λ m. contents m ++ pending f.rest ≡ pending es) same
            (r.stream ∙ ap (λ x. x ++ pending es) (e ∙ contents-new a init_buffer_size)),
      )
    where
      new_total : (Buffer.new a init_buffer_size).total_ ≡ init_buffer_size
      new_total = unfold Buffer.new in refl

  pub write_buffer-Writes :
      (noblock : Bool) (es : List Departure) (b : Buffer)
      → IsValid b
      → Writes b (write_buffer a noblock es b)
  unfolding write_buffer
  write_buffer-Writes noblock es b v =
      let (w, e, _) = grow_initial-Same b v in
      let c = grow_initial a b in
      let d = drain noblock es c 0 [] in
      write_end-Writes b d.end d c (drain-Drains noblock es c 0 [] w) e

  -- Whatever `write` returns on a valid output, the bytes sent followed by what stays in the output
  -- are the output as it was; where it does not return -1, the result is the number of bytes sent.
  pub write-Writes :
      (es : List Departure) (l : Link)
      → IsValid l.output
      → Writes l.output
          ((write a es l).0, (write a es l).1.output, (write a es l).2, (write a es l).3)
  unfolding write
  write-Writes es l v = write_buffer-Writes l.noblock_ es l.output v
