-- ===== src/Link/Outcome.antt =====
-- `Link::parse` on any input (server-5204/link.cpp): what each of its results leaves in the input
-- buffer, and which text a packet that it returns was.
use expert_spoon.Prelude.{
  ℕ, suc, ◌+◌, ◌≤◌, ◌<◌, ◌≡◌, refl, sym, ap, subst, ◌∙◌, ◌⊎◌, ==→eq, true, false, inl, inr, Option,
  none, some, List, [], ◌∷◌, Str, arith, ◌==◌, length, length-drop, drop, Bool-cases, Option-cases,
}
use expert_spoon.Framing.{at}
use expert_spoon.Buffer.{Buffer, Allocator, contents, space, is_empty, nice, grow}
use expert_spoon.Buffer.Window.{
  IsValid, nice-IsValid, contents-nice, decr-IsValid, contents-decr, length-contents,
}
use expert_spoon.Buffer.Reserve.{grow-Grows, Grows-IsValid, contents-Grows}
use expert_spoon.Link.{Link, max_packet_size}
use expert_spoon.Link.Parse.{
  Scan, bad, done, waiting, scan_overflow, scan_spent, is_blank, skip_blank, scan_records,
  scan_input, Parsed, returns, null, overflow, spent, make_room, wait_more, finish, parse,
}
use expert_spoon.Link.Framed.{LineEnd, Reaches, Unfinished, BadLine, Oversized}
use expert_spoon.Link.Scanned.{InLimit, Takes, scan_records-Takes}
use expert_spoon.Link.Safety.{Ends, scan_records-Ends}

skip_blank-le : (s : Str) → skip_blank s ≤ length s
unfolding skip_blank
skip_blank-le [] = omega arith
skip_blank-le (c ∷ s) = ground (arith, skip_blank-le s)

-- Behind the blanks no blank is left.
true≢false : true ≡ false → ⊥
true≢false h = cc

drop-skip_blank : (s : Str) → is_blank (at (drop (skip_blank s) s) 0) ≡ false
unfolding skip_blank
drop-skip_blank [] = refl
drop-skip_blank (c ∷ s) = elim (Bool-cases (is_blank c)) [
  | inl e ↦
      rw e (let n : skip_blank s + 1 ≡ suc (skip_blank s) = omega arith in rw n (drop-skip_blank s))
  | inr e ↦ rw e e
]

pub scan_input-Ends : (s : Str) → Ends (length s) (scan_input s)
unfolding scan_input
scan_input-Ends s =
    let n = skip_blank s in
    let whole : n + length (drop n s) ≡ length s =
      omega (arith, length-drop n s, skip_blank-le s) in
    subst (λ k. Ends k (scan_records (length (drop n s) + 1) (drop n s) n [])) whole
      (scan_records-Ends (length (drop n s) + 1) (drop n s) n [] (omega arith)
        (λ blank. absurd (true≢false (sym blank ∙ drop-skip_blank s))))

empty_size : (b : Buffer) → is_empty b ≡ true → b.size_ ≡ 0
empty_size b h = ground arith

-- The input behind its blank lines.
abbrev pub front : Link → Str
front l = drop (skip_blank (contents l.input)) (contents l.input)

module _ (a : Allocator) where
  -- What `parse` does to a link.
  abbrev pub Outcome : Link → Parsed × Link → Type 0
  Outcome l (returns [], m) =
      IsValid m.input
      × (m.recv_data ≡ [])
      × (contents m.input ≡ contents l.input)
      × ((l.input.size_ ≡ 0)
          ⊎ Reaches (front l)
              (λ recv k rest. InLimit (skip_blank (contents l.input)) k × Unfinished rest))
  Outcome l (returns (s ∷ ms), m) =
      IsValid m.input
      × (m.recv_data ≡ s ∷ ms)
      × Reaches (front l) (λ recv k rest.
        (j : ℕ) × (recv ≡ s ∷ ms)
        × LineEnd rest j
        × InLimit (skip_blank (contents l.input)) k
        × (skip_blank (contents l.input) + k + j ≤ l.input.size_)
        × (contents m.input ≡ drop (skip_blank (contents l.input) + k + j) (contents l.input)))
  Outcome l (null, m) =
      IsValid m.input
      × (contents m.input ≡ contents l.input)
      × (Reaches (front l) (λ recv k rest.
            (InLimit (skip_blank (contents l.input)) k × BadLine rest)
            ⊎ (max_packet_size < skip_blank (contents l.input) + k))
          ⊎ (Reaches (front l)
                (λ recv k rest. InLimit (skip_blank (contents l.input)) k × Unfinished rest)
              × (space (nice l.input) ≡ 0)
              × (grow a (nice l.input) ≡ none)))
  Outcome l (overflow, m) =
      (m ≡ record l { recv_data = [] })
      × Reaches (front l)
          (λ recv k rest. InLimit (skip_blank (contents l.input)) k × Oversized rest)
  Outcome l (spent, m) = ⊥

  abbrev Room : Buffer → Option Buffer → Type 0
  Room b none = Unit
  Room b (some c) = IsValid c × (contents c ≡ contents b)

  grow-Room : (b : Buffer) → IsValid b → Room b (grow a b)
  grow-Room b v = elim (Option-cases (grow a b)) [
    | inl e ↦ rw e tt
    | inr (c, e) ↦
        rw e (let g = grow-Grows a b c v e in (Grows-IsValid a b c v g, contents-Grows a b c v g))
  ]

  Room-trans : (b c : Buffer) (o : Option Buffer) → contents c ≡ contents b → Room c o → Room b o
  Room-trans b c none e r = tt
  Room-trans b c (some d) e r = (r.0, r.1 ∙ e)

  make_room-Room : (b : Buffer) → IsValid b → Room b (make_room a b)
  unfolding make_room
  make_room-Room b v = elim (Bool-cases (space b == 0)) [
    | inl e ↦ elim (Bool-cases (space (nice b) == 0)) [
      | inl e' ↦
          rw (e, e')
            (Room-trans b (nice b) _ (contents-nice b v) (grow-Room (nice b) (nice-IsValid b v)))
      | inr e' ↦ rw (e, e') (nice-IsValid b v, contents-nice b v)
    ]
    | inr e ↦ rw e (v, refl)
  ]

  make_room-none :
      (b : Buffer) → make_room a b ≡ none → (space (nice b) ≡ 0) × (grow a (nice b) ≡ none)
  unfolding make_room
  make_room-none b h = elim (Bool-cases (space b == 0)) [
    | inl e ↦ elim (Bool-cases (space (nice b) == 0)) [
      | inl e' ↦ (==→eq _ _ e', rw (e, e') at h)
      | inr e' ↦ absurd (room_found (rw (e, e') at h))
    ]
    | inr e ↦ absurd (room_found (rw e at h))
  ]
    where
      room_found : {c : Buffer} → some c ≡ none → ⊥
      room_found p = cc

  wait_more-Outcome :
      (l : Link) (recv : List Str)
      → IsValid l.input
      → Reaches
          (front l)
          (λ recv k rest. InLimit (skip_blank (contents l.input)) k × Unfinished rest)
      → Outcome l (wait_more a l recv)
  unfolding wait_more
  wait_more-Outcome l recv v u = go (make_room a l.input) refl (make_room-Room l.input v)
    where
      go :
          (o : Option Buffer)
          → make_room a l.input ≡ o
          → Room l.input o
          → Outcome l (wait_more a l recv)
      go none e r =
          rw (e, wait_more, Outcome)
            (let (full, refused) = make_room-none l.input e in
              (nice-IsValid l.input v, contents-nice l.input v, inr (u, full, refused)))
      go (some c) e r = rw (e, wait_more, Outcome) (r.0, refl, r.1, inr u)

  finish-Outcome :
      (l : Link) (r : Scan)
      → IsValid l.input
      → l.recv_data ≡ []
      → Ends l.input.size_ r
      → Takes (front l) (skip_blank (contents l.input)) [] r
      → Outcome l (finish a l r)
  unfolding finish
  finish-Outcome l (bad recv) v c e t = (v, refl, inl t)
  finish-Outcome l (done n []) v c e t = absurd (omega arith)
  finish-Outcome l (done n (s ∷ ms)) v c e (recv, k, rest, f, (j, sum, same, end, limit)) = (
    decr-IsValid n l.input e.0 v,
    refl,
    (
      recv,
      k,
      rest,
      f,
      (
        j,
        sym same,
        end,
        limit,
        omega (arith, e.0, sum),
        contents-decr n l.input e.0 ∙ ap (λ x. drop x (contents l.input)) sum,
      ),
    ),
  )
  finish-Outcome l (waiting recv) v c e t = wait_more-Outcome l recv v t
  finish-Outcome l scan_overflow v c e t = (ap (λ x. record l { recv_data = x }) c, t)
  finish-Outcome l scan_spent v c e t = absurd e

  -- On any valid input `parse` ends in one of its results, never for want of rounds, and each says
  -- what the input is. A packet is returned where records (each a header line with the body's
  -- length, the body and a line end) and an empty line stand behind the blank lines: the result and
  -- `recv_data` are these records, one or more, and exactly the blank lines, the records and the
  -- empty line are taken. "Not ready" is an empty input, or one whose records are followed by a part
  -- of a record, or by a body without its line end. NULL is a line that is no header, records that
  -- pass the packet limit, or "not ready" with a full buffer where the heap gives no more. These
  -- keep every byte, and the input stays valid. Where a header's sum of lengths passes an `int` the
  -- model stops with the link as it was but for `recv_data`, which is empty.
  pub parse-Outcome : (l : Link) → IsValid l.input → Outcome l (parse a l)
  unfolding parse scan_input
  parse-Outcome l v =
      let cleared : Link = record l { recv_data = [] } in
      let s = contents l.input in
      let head = drop (skip_blank s) s in
      elim (Bool-cases (is_empty l.input)) [
        | inl e ↦ rw (e, Outcome) (v, refl, refl, inl (empty_size l.input e))
        | inr e ↦ rw e (
            finish-Outcome cleared (scan_input s) v refl
              (subst (λ k. Ends k (scan_input s)) (length-contents l.input v) (scan_input-Ends s))
              (scan_records-Takes (length head + 1) head (skip_blank s) []))
      ]
