-- ===== src/Link/Stream.antt =====
-- The socket loops (server-5204/link.cpp) neither lose nor invent bytes, in any order of the kernel's
-- answers and on every way out.
use expert_spoon.Prelude.{
  ℕ, ◌+◌, ◌≤◌, ◌<◌, ◌≡◌, refl, sym, ap, ◌∙◌, Bool, true, false, inl, inr, List, [], ◌∷◌, ◌++◌, Str,
  arith, ltb, ltb→le, ltb→lt, ◌==◌, if◌then◌else◌, length, length-append, length-take, take, drop,
  Bool-cases, append_assoc, take-append-drop, min,
}
use expert_spoon.Buffer.{Buffer, contents, space, is_empty, put, decr}
use expert_spoon.Buffer.Window.{
  IsValid, decr-IsValid, contents-decr, length-contents, contents-put, put-IsValid,
}
use expert_spoon.Link.Socket.{
  Arrival, got, read_interrupted, read_would_block, read_failed, Departure, accepted,
  write_interrupted, write_would_block, write_failed, ReadEnd, stopped, failed, Filled, fill,
  Drained, drain,
}

-- The bytes that the kernel has yet to deliver.
abbrev pub pending : List Arrival → Str
pending [] = []
pending (got s ∷ es) = s ++ pending es
pending (_ ∷ es) = pending es

-- What the reading loop did to `b`.
pub record Fills (b : Buffer) (es : List Arrival) (ret : ℕ) (f : Filled) : Type 0 where
  pub valid : IsValid f.buffer
  pub stream : contents f.buffer ++ pending f.rest ≡ contents b ++ pending es
  pub counted : f.buffer.size_ + ret ≡ b.size_ + f.ret
  pub same_block : f.buffer.total_ ≡ b.total_

at_rest :
    (b : Buffer) (es : List Arrival) (ret : ℕ) (e : ReadEnd)
    → IsValid b
    → Fills b es ret (record { end = e; ret = ret; buffer = b; rest = es })
at_rest b es ret e v = record { valid = v; stream = refl; counted = refl; same_block = refl }

Fills-if :
    (b : Buffer) (es : List Arrival) (ret : ℕ) (t : Bool) (f g : Filled)
    → Fills b es ret f
    → Fills b es ret g
    → Fills b es ret (if t then f else g)
Fills-if b es ret true f g hf hg = hf
Fills-if b es ret false f g hf hg = hg

size-put : (s : Str) (b : Buffer) → (put s b).size_ ≡ b.size_ + length s
unfolding put
size-put s b = refl

total-put : (s : Str) (b : Buffer) → (put s b).total_ ≡ b.total_
unfolding put
total-put s b = refl

-- Bytes taken whole.
take_all_in :
    (s : Str) (b : Buffer) (es : List Arrival) (ret : ℕ) (f : Filled)
    → IsValid b
    → Fills (put s b) es (ret + length s) f
    → Fills b (got s ∷ es) ret f
take_all_in s b es ret f v h = record {
  valid = h.valid;
  stream =
      h.stream
      ∙ ap (λ x. x ++ pending es) (contents-put s b v)
      ∙ append_assoc (contents b) s (pending es);
  counted = omega (arith, h.counted, size-put s b);
  same_block = h.same_block ∙ total-put s b;
}

take_part_in :
    (s : Str) (b : Buffer) (es : List Arrival) (ret want : ℕ)
    → IsValid b
    → want ≤ space b
    → want < length s
    → Fills b (got s ∷ es) ret (record {
      end = stopped;
      ret = ret + want;
      buffer = put (take want s) b;
      rest = got (drop want s) ∷ es;
    })
take_part_in s b es ret want v h k = record {
  valid = put-IsValid (take want s) b v (omega (arith, length-take want s));
  stream =
      ap (λ x. x ++ (drop want s ++ pending es)) (contents-put (take want s) b v)
      ∙ append_assoc (contents b) (take want s) (drop want s ++ pending es)
      ∙ ap (λ x. contents b ++ x)
          (sym (append_assoc (take want s) (drop want s) (pending es))
            ∙ ap (λ x. x ++ pending es) (take-append-drop want s));
  counted = omega (arith, size-put (take want s) b, length-take want s);
  same_block = total-put (take want s) b;
}

-- The loop of `read` and `msg_read` on a valid buffer moves bytes from the kernel's queue to the
-- buffer, in order and without loss, counts them, and keeps the buffer valid, however it ends.
pub fill-Fills :
    (noblock : Bool) (es : List Arrival) (b : Buffer) (ret : ℕ)
    → IsValid b
    → Fills b es ret (fill noblock es b ret)
unfolding fill
fill-Fills noblock [] b ret v = at_rest b [] ret stopped v
fill-Fills noblock (read_interrupted ∷ es) b ret v =
    let h = fill-Fills noblock es b ret v in
    Fills-if b (read_interrupted ∷ es) ret (space b == 0) _ _
      (at_rest b (read_interrupted ∷ es) ret stopped v)
      (record {
        valid = h.valid;
        stream = h.stream;
        counted = h.counted;
        same_block = h.same_block;
      })
fill-Fills noblock (read_would_block ∷ es) b ret v = elim (Bool-cases (space b == 0)) [
  | inl e ↦ rw e (at_rest b (read_would_block ∷ es) ret stopped v)
  | inr e ↦ rw e (record { valid = v; stream = refl; counted = refl; same_block = refl })
]
fill-Fills noblock (read_failed ∷ es) b ret v =
    Fills-if b (read_failed ∷ es) ret (space b == 0) _ _
      (at_rest b (read_failed ∷ es) ret stopped v)
      (record { valid = v; stream = refl; counted = refl; same_block = refl })
fill-Fills noblock (got [] ∷ es) b ret v =
    Fills-if b (got [] ∷ es) ret (space b == 0) _ _ (at_rest b (got [] ∷ es) ret stopped v)
      (record { valid = v; stream = refl; counted = refl; same_block = refl })
fill-Fills noblock (got (c ∷ s) ∷ es) b ret v = elim (Bool-cases (space b == 0)) [
  | inl e ↦ rw e (record { valid = v; stream = refl; counted = refl; same_block = refl })
  | inr e ↦ elim (Bool-cases (ltb (space b) (length (c ∷ s)))) [
    | inl e' ↦ rw (e, e') (take_part_in (c ∷ s) b es ret (space b) v (omega arith) (ltb→lt _ _ e'))
    | inr e' ↦
        let w = put-IsValid (c ∷ s) b v (ltb→le _ _ e') in
        let h = fill-Fills noblock es (put (c ∷ s) b) (ret + length (c ∷ s)) w in
        rw (e, e')
          (Fills-if b (got (c ∷ s) ∷ es) ret noblock _ _ (take_all_in (c ∷ s) b es ret _ v h) (
            take_all_in (c ∷ s) b es ret _ v
              (at_rest (put (c ∷ s) b) es (ret + length (c ∷ s)) stopped w)))
  ]
]

-- What the writing loop did to `b`: the bytes on the wire and those left are what there was.
pub record Drains (b : Buffer) (ret : ℕ) (wire : Str) (d : Drained) : Type 0 where
  pub valid : IsValid d.buffer
  pub stream : d.wire ++ contents d.buffer ≡ wire ++ contents b
  pub counted : length d.wire + ret ≡ length wire + d.ret

Drains-if :
    (b : Buffer) (ret : ℕ) (wire : Str) (t : Bool) (d f : Drained)
    → Drains b ret wire d
    → Drains b ret wire f
    → Drains b ret wire (if t then d else f)
Drains-if b ret wire true d f hd hf = hd
Drains-if b ret wire false d f hd hf = hf

untouched :
    (b : Buffer) (ret : ℕ) (wire : Str) (e : ReadEnd) (es : List Departure)
    → IsValid b
    → Drains b ret wire (record { end = e; ret = ret; buffer = b; wire = wire; rest = es })
untouched b ret wire e es v = record { valid = v; stream = refl; counted = refl }

-- `len` bytes sent, and what the loop did after that.
send_some :
    (b : Buffer) (ret len : ℕ) (wire : Str) (d : Drained)
    → IsValid b
    → len ≤ b.size_
    → Drains (decr len b) (ret + len) (wire ++ take len (contents b)) d
    → Drains b ret wire d
send_some b ret len wire d v h r = record {
  valid = r.valid;
  stream =
      r.stream
      ∙ ap (λ x. (wire ++ take len (contents b)) ++ x) (contents-decr len b h)
      ∙ append_assoc wire (take len (contents b)) (drop len (contents b))
      ∙ ap (λ x. wire ++ x) (take-append-drop len (contents b));
  counted = omega (
    arith,
    r.counted,
    length-append {0} wire (take len (contents b)),
    length-take len (contents b),
    length-contents b v,
  );
}

-- The loop of `write` and `msg_write` on a valid buffer moves bytes from the buffer to the wire, in
-- order and without loss, counts them, and keeps the buffer valid, however it ends.
pub drain-Drains :
    (noblock : Bool) (es : List Departure) (b : Buffer) (ret : ℕ) (wire : Str)
    → IsValid b
    → Drains b ret wire (drain noblock es b ret wire)
unfolding drain
drain-Drains noblock [] b ret wire v = untouched b ret wire stopped [] v
drain-Drains noblock (write_interrupted ∷ es) b ret wire v =
    Drains-if b ret wire (is_empty b) _ _ (untouched b ret wire stopped (write_interrupted ∷ es) v)
      (drain-Drains noblock es b ret wire v)
drain-Drains noblock (write_would_block ∷ es) b ret wire v = untouched b ret wire stopped _ v
drain-Drains noblock (write_failed ∷ es) b ret wire v =
    Drains-if b ret wire (is_empty b) _ _ (untouched b ret wire stopped (write_failed ∷ es) v)
      (untouched b ret wire failed es v)
drain-Drains noblock (accepted n ∷ es) b ret wire v =
    let len = min n b.size_ in
    let sent = wire ++ take len (contents b) in
    let fits : len ≤ b.size_ = omega arith in
    let w = decr-IsValid len b fits v in
    Drains-if b ret wire (is_empty b) _ _ (untouched b ret wire stopped (accepted n ∷ es) v) (
      Drains-if b ret wire (len == 0) _ _ (untouched b ret wire stopped es v) (
        Drains-if b ret wire noblock _ _
          (send_some b ret len wire _ v fits
            (drain-Drains noblock es (decr len b) (ret + len) sent w))
          (send_some b ret len wire _ v fits
            (untouched (decr len b) (ret + len) sent stopped es w))))
