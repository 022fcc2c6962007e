-- ===== src/Mtcp/Loops.antt =====
-- The two loops of HandleReadEvent (mtcp_kvstore/kvstore.c): a whole packet is read and a whole reply is
-- written, in whatever pieces mTCP delivers and takes them.
use expert_spoon.Prelude.{
  ℕ, ◌+◌, ◌-◌, ◌≤◌, ◌≡◌, refl, sym, ap, ◌∙◌, Bool, true, false, List, [], ◌∷◌, ◌++◌, Str, arith,
  ltb, ltb→lt, ltb→le, ◌==◌, ==→eq, if◌then◌else◌, length, length-append, length-take, length-drop,
  take, drop, take-append-drop, append_assoc, append-nil, min,
}
use expert_spoon.Mtcp.{
  Read, received, no_read, Write, took, no_write, again, not_connected, other, unread, read_loop,
  ReadEnd, filled, write_loop, WriteEnd, all_sent, content_len,
}

-- The bytes that mTCP has for the socket, and those that it will take.
abbrev pub pending : List Read → Str
pending [] = []
pending (received c s ∷ es) = (c ∷ s) ++ pending es
pending (no_read e ∷ es) = pending es

abbrev pub capacity : List Write → ℕ
capacity [] = 0
capacity (took n ∷ es) = n + capacity es
capacity (no_write e ∷ es) = capacity es

-- No call fails but with EAGAIN.
abbrev pub ReadsGoOn : List Read → Type 0
ReadsGoOn [] = Unit
ReadsGoOn (received c s ∷ es) = ReadsGoOn es
ReadsGoOn (no_read e ∷ es) = (e ≡ again) × ReadsGoOn es

abbrev pub WritesGoOn : List Write → Type 0
WritesGoOn [] = Unit
WritesGoOn (took n ∷ es) = WritesGoOn es
WritesGoOn (no_write e ∷ es) = (e ≡ again) × WritesGoOn es

pending-unread : (s : Str) (es : List Read) → pending (unread s es) ≡ s ++ pending es
pending-unread [] es = refl
pending-unread (c ∷ s) es = refl

-- A loop that read a packet read the first bytes that there were, and left the others.
pub record Reads (buf : Str) (es : List Read) (r : ReadEnd) : Type 0 where
  pub packet : Str
  pub rest : List Read
  pub ends : r ≡ filled packet rest
  pub size : length packet ≡ content_len
  pub stream : packet ++ pending rest ≡ buf ++ pending es

Reads-if :
    (b : Bool) (buf : Str) (es : List Read) (r s : ReadEnd)
    → (b ≡ true → Reads buf es r)
    → (b ≡ false → Reads buf es s)
    → Reads buf es (if b then r else s)
Reads-if true buf es r s hr hs = hr refl
Reads-if false buf es r s hr hs = hs refl

-- The packet was whole before a call.
whole :
    (buf : Str) (es : List Read) → (length buf == content_len) ≡ true → Reads buf es (filled buf es)
whole buf es h = record {
  packet = buf;
  rest = es;
  ends = refl;
  size = ==→eq (length buf) content_len h;
  stream = refl;
}

further :
    (buf s : Str) (es es' : List Read) (r : ReadEnd)
    → pending es' ≡ s ++ pending es
    → Reads (buf ++ s) es r
    → Reads buf es' r
further buf s es es' r e h = record {
  packet = h.packet;
  rest = h.rest;
  ends = h.ends;
  size = h.size;
  stream = h.stream ∙ append_assoc buf s (pending es) ∙ ap (λ x. buf ++ x) (sym e);
}

pub read_loop-Reads :
    (es : List Read) (buf : Str)
    → ReadsGoOn es
    → length buf ≤ content_len
    → content_len ≤ length buf + length (pending es)
    → Reads buf es (read_loop es buf)
unfolding read_loop
read_loop-Reads [] buf g h p =
    Reads-if (length buf == content_len) buf [] _ _ (whole buf []) (λ e. absurd (ground arith))
read_loop-Reads (received c s ∷ es) buf g h p =
    let want = content_len - length buf in
    Reads-if (length buf == content_len) buf (received c s ∷ es) _ _ (whole buf (received c s ∷ es))
      (λ _.
        Reads-if (ltb want (length (c ∷ s))) buf (received c s ∷ es) _ _
          (λ e. record {
            packet = buf ++ take want (c ∷ s);
            rest = unread (drop want (c ∷ s)) es;
            ends = refl;
            size = omega (
              arith,
              length-append {0} buf (take want (c ∷ s)),
              length-take want (c ∷ s),
              ltb→lt want (length (c ∷ s)) e,
              h,
            );
            stream =
                ap (λ x. (buf ++ take want (c ∷ s)) ++ x) (pending-unread (drop want (c ∷ s)) es)
                ∙ append_assoc buf (take want (c ∷ s)) (drop want (c ∷ s) ++ pending es)
                ∙ ap (λ x. buf ++ x)
                    (sym (append_assoc (take want (c ∷ s)) (drop want (c ∷ s)) (pending es))
                      ∙ ap (λ x. x ++ pending es) (take-append-drop want (c ∷ s)));
          })
          (λ e. further buf (c ∷ s) es (received c s ∷ es) _ refl (
            read_loop-Reads es (buf ++ c ∷ s) g
              (omega (arith, length-append {0} buf (c ∷ s), ltb→le want (length (c ∷ s)) e))
              (omega
                (arith, length-append {0} buf (c ∷ s), length-append {0} (c ∷ s) (pending es))))))
read_loop-Reads (no_read again ∷ es) buf g h p =
    Reads-if (length buf == content_len) buf (no_read again ∷ es) _ _
      (whole buf (no_read again ∷ es)) (λ _. read_again (read_loop-Reads es buf g.1 h p))
  where
    read_again : {r : ReadEnd} → Reads buf es r → Reads buf (no_read again ∷ es) r
    read_again r = record {
      packet = r.packet;
      rest = r.rest;
      ends = r.ends;
      size = r.size;
      stream = r.stream;
    }
read_loop-Reads (no_read not_connected ∷ es) buf g h p = absurd (not_again g.0)
  where
    not_again : not_connected ≡ again → ⊥
    not_again e = cc
read_loop-Reads (no_read other ∷ es) buf g h p = absurd (not_again g.0)
  where
    not_again : other ≡ again → ⊥
    not_again e = cc

-- A writing loop that ends well sent all.
pub record Sends (left wire : Str) (w : WriteEnd) : Type 0 where
  pub rest : List Write
  pub ends : w ≡ all_sent (wire ++ left) rest

Sends-if :
    (b : Bool) (left wire : Str) (w v : WriteEnd)
    → (b ≡ true → Sends left wire w)
    → (b ≡ false → Sends left wire v)
    → Sends left wire (if b then w else v)
Sends-if true left wire w v hw hv = hw refl
Sends-if false left wire w v hw hv = hv refl

nothing_left : (left : Str) → (length left == 0) ≡ true → left ≡ []
nothing_left [] h = refl
nothing_left (c ∷ s) h = absurd (ground arith)

sent :
    (left wire : Str) (es : List Write)
    → (length left == 0) ≡ true
    → Sends left wire (all_sent wire es)
sent left wire es h = record {
  rest = es;
  ends =
      ap (λ x. all_sent x es)
        (sym (append-nil wire) ∙ ap (λ x. wire ++ x) (sym (nothing_left left h)));
}

piece :
    (n : ℕ) (left wire : Str) (w : WriteEnd)
    → Sends (drop n left) (wire ++ take n left) w
    → Sends left wire w
piece n left wire w h = record {
  rest = h.rest;
  ends =
      h.ends
      ∙ ap (λ x. all_sent x h.rest)
          (append_assoc wire (take n left) (drop n left)
            ∙ ap (λ x. wire ++ x) (take-append-drop n left));
}

pub write_loop-Sends :
    (es : List Write) (left wire : Str)
    → WritesGoOn es
    → length left ≤ capacity es
    → Sends left wire (write_loop es left wire)
unfolding write_loop
write_loop-Sends [] left wire g p =
    Sends-if (length left == 0) left wire _ _ (sent left wire []) (λ e. absurd (ground arith))
write_loop-Sends (took n ∷ es) left wire g p =
    let k = min n (length left) in
    Sends-if (length left == 0) left wire _ _ (sent left wire (took n ∷ es)) (λ _.
      piece k left wire _ (
        write_loop-Sends es (drop k left) (wire ++ take k left) g
          (omega (arith, length-drop k left))))
write_loop-Sends (no_write again ∷ es) left wire g p =
    Sends-if (length left == 0) left wire _ _ (sent left wire (no_write again ∷ es))
      (λ _. write_loop-Sends es left wire g.1 p)
write_loop-Sends (no_write not_connected ∷ es) left wire g p = absurd (not_again g.0)
  where
    not_again : not_connected ≡ again → ⊥
    not_again e = cc
write_loop-Sends (no_write other ∷ es) left wire g p = absurd (not_again g.0)
  where
    not_again : other ≡ again → ⊥
    not_again e = cc
