-- ===== src/Link/Scanned.antt =====
-- Where the loop of `Link::parse` ends (server-5204/link.cpp): the records in front, and what stands at the place
-- of the next one.
use expert_spoon.Prelude.{
  ℕ, zero, suc, ◌+◌, ◌≤◌, ◌<◌, ◌≡◌, refl, sym, ap, ◌∙◌, ◌⊎◌, inl, inr, some, List, [], ◌∷◌, ◌++◌,
  Str, arith, ltb, ltb→le, ltb→lt, leb, leb→le, newline, length, take, drop, int_limit, Bool-cases,
  Option-cases, append_assoc, append-nil,
}
use expert_spoon.Framing.{memchr, header_value}
use expert_spoon.Link.{max_packet_size}
use expert_spoon.Link.Parse.{
  Scan, bad, done, waiting, scan_overflow, scan_spent, Round, stop, next, is_packet_end, separator,
  round_end, round_body, round_line, round, scan_records,
}
use expert_spoon.Link.Packet.{scan_next, scan_stop}
use expert_spoon.Link.Framed.{
  LineEnd, Records, no_record, record_then, Reaches, Unfinished, BadLine, Oversized,
  separator-LineEnd, packet_end-LineEnd, separator-none, no_packet_end,
}

-- No record has been taken, or those that were are in the limit of a packet, with the `parsed` bytes before them.
abbrev pub InLimit : ℕ → ℕ → Type 0
InLimit parsed k = (k ≡ 0) ⊎ (parsed + k ≤ max_packet_size)

-- What the loop has met at `head`, with `parsed` bytes and the records `recv` before it.
abbrev pub Takes : Str → ℕ → List Str → Scan → Type 0
Takes head parsed recv (done n r) = Reaches head (λ more k rest.
    (j : ℕ) × (n ≡ parsed + k + j) × (r ≡ recv ++ more) × LineEnd rest j × InLimit parsed k)
Takes head parsed recv (waiting r) =
    Reaches head (λ more k rest. InLimit parsed k × Unfinished rest)
Takes head parsed recv (bad r) =
    Reaches head (λ more k rest. (InLimit parsed k × BadLine rest) ⊎ (max_packet_size < parsed + k))
Takes head parsed recv scan_overflow =
    Reaches head (λ more k rest. InLimit parsed k × Oversized rest)
Takes head parsed recv scan_spent = Unit

abbrev RoundTakes : Str → ℕ → List Str → Round → Type 0
RoundTakes head parsed recv (stop o) = Takes head parsed recv o
RoundTakes head parsed recv (next h p r) =
    (k : ℕ) × (x : Str) × (p ≤ max_packet_size)
    × (p ≡ parsed + k)
    × (r ≡ recv ++ x ∷ [])
    × ((more : List Str) (j : ℕ) (rest : Str)
        → Records h more j rest
        → Records head (x ∷ more) (k + j) rest)

round_end-RoundTakes :
    (head : Str) (parsed : ℕ) (recv : List Str) (n len : ℕ)
    → memchr head newline ≡ some n
    → header_value head n ≡ some len
    → n + 1 + len ≤ length head
    → RoundTakes head parsed recv (
        round_end
          (drop (n + 1 + len) head)
          (parsed + (n + 1 + len))
          (recv ++ take len (drop (n + 1) head) ∷ []))
unfolding round_end
round_end-RoundTakes head parsed recv n len found read fits =
    let after = drop (n + 1 + len) head in
    let one =
      λ (j : ℕ) (e : separator after ≡ some j) (more : List Str) (k : ℕ) (rest : Str)
          (f : Records (drop j after) more k rest).
        record_then {s = head} n len j found read fits (separator-LineEnd after j e) f in
    elim (Option-cases (separator after)) [
      | inl e ↦
          rw (e, RoundTakes, Takes)
            (
              [],
              0,
              head,
              no_record,
              (inl refl, inr (n, len, found, read, inr (fits, λ j l. separator-none after j e l))),
            )
      | inr (j, e) ↦ elim (Bool-cases (ltb max_packet_size (parsed + (n + 1 + len) + j))) [
        | inl e' ↦
            rw (e, e', RoundTakes, Takes)
              (
                take len (drop (n + 1) head) ∷ [],
                n + 1 + len + j + 0,
                drop j after,
                one j e [] 0 (drop j after) no_record,
                inr (omega (arith, ltb→lt _ _ e')),
              )
        | inr e' ↦
            rw (e, e', RoundTakes)
              (
                n + 1 + len + j,
                take len (drop (n + 1) head),
                ltb→le _ _ e',
                omega arith,
                refl,
                one j e,
              )
      ]
    ]

round_body-RoundTakes :
    (head : Str) (parsed : ℕ) (recv : List Str) (n len : ℕ)
    → memchr head newline ≡ some n
    → header_value head n ≡ some len
    → RoundTakes head parsed recv (round_body head parsed recv n len)
unfolding round_body
round_body-RoundTakes head parsed recv n len found read =
    elim (Bool-cases (leb int_limit (n + 1 + len))) [
      | inl e ↦
          rw (e, RoundTakes, Takes)
            ([], 0, head, no_record, (inl refl, (n, len, found, read, leb→le _ _ e)))
      | inr e ↦ elim (Bool-cases (ltb (length head) (n + 1 + len))) [
        | inl e' ↦
            rw (e, e', RoundTakes, Takes)
              ([], 0, head, no_record, (inl refl, inr (n, len, found, read, inl (ltb→lt _ _ e'))))
        | inr e' ↦
            rw (e, e') (round_end-RoundTakes head parsed recv n len found read (ltb→le _ _ e'))
      ]
    ]

round_line-RoundTakes :
    (head : Str) (parsed : ℕ) (recv : List Str) (n : ℕ)
    → memchr head newline ≡ some n
    → RoundTakes head parsed recv (round_line head parsed recv n)
unfolding round_line
round_line-RoundTakes head parsed recv n found = elim (Bool-cases (is_packet_end head n)) [
  | inl e ↦
      rw (e, RoundTakes, Takes)
        (
          [],
          0,
          head,
          no_record,
          (n + 1, omega arith, sym (append-nil recv), packet_end-LineEnd head n found e, inl refl),
        )
  | inr e ↦ elim (Option-cases (header_value head n)) [
    | inl e' ↦
        rw (e, e', RoundTakes, Takes)
          (
            [],
            0,
            head,
            no_record,
            inl (inl refl, (n, found, e', λ j l. no_packet_end head n j found e l)),
          )
    | inr (len, e') ↦ rw (e, e') (round_body-RoundTakes head parsed recv n len found e')
  ]
]

round-RoundTakes :
    (head : Str) (parsed : ℕ) (recv : List Str)
    → RoundTakes head parsed recv (round head parsed recv)
unfolding round
round-RoundTakes head parsed recv = elim (Option-cases (memchr head newline)) [
  | inl e ↦ rw (e, RoundTakes, Takes, round) ([], 0, head, no_record, (inl refl, inl e))
  | inr (n, e) ↦ rw (e, round) (round_line-RoundTakes head parsed recv n e)
]

InLimit-next :
    (parsed p k i : ℕ) → p ≤ max_packet_size → p ≡ parsed + k → InLimit p i → InLimit parsed (k + i)
InLimit-next parsed p k i small sum (inl e) = inr (omega (arith, small, sum, e))
InLimit-next parsed p k i small sum (inr h) = inr (omega (arith, sum, h))

-- A round more in front of what the rest of the loop meets.
Takes-next :
    (head h : Str) (parsed p k : ℕ) (recv r : List Str) (x : Str) (o : Scan)
    → p ≤ max_packet_size
    → p ≡ parsed + k
    → r ≡ recv ++ x ∷ []
    → ((more : List Str) (j : ℕ) (rest : Str)
        → Records h more j rest
        → Records head (x ∷ more) (k + j) rest)
    → Takes h p r o
    → Takes head parsed recv o
Takes-next head h parsed p k recv r x (done n q) small sum same step
      (more, i, rest, f, (j, e, e', l, m)) =
    (
      x ∷ more,
      k + i,
      rest,
      step more i rest f,
      (
        j,
        omega (arith, e, sum),
        e' ∙ ap (λ y. y ++ more) same ∙ append_assoc recv (x ∷ []) more,
        l,
        InLimit-next parsed p k i small sum m,
      ),
    )
Takes-next head h parsed p k recv r x (bad q) small sum same step (more, i, rest, f, inl (m, b)) =
    (x ∷ more, k + i, rest, step more i rest f, inl (InLimit-next parsed p k i small sum m, b))
Takes-next head h parsed p k recv r x (bad q) small sum same step (more, i, rest, f, inr b) =
    (x ∷ more, k + i, rest, step more i rest f, inr (omega (arith, b, sum)))
Takes-next head h parsed p k recv r x (waiting q) small sum same step (more, i, rest, f, (m, u)) =
    (x ∷ more, k + i, rest, step more i rest f, (InLimit-next parsed p k i small sum m, u))
Takes-next head h parsed p k recv r x scan_overflow small sum same step (more, i, rest, f, (m, u)) =
    (x ∷ more, k + i, rest, step more i rest f, (InLimit-next parsed p k i small sum m, u))
Takes-next head h parsed p k recv r x scan_spent small sum same step t = tt

-- Where the loop ends, what it has taken are the records in front, and what it says of the text holds.
pub scan_records-Takes :
    (fuel : ℕ) (head : Str) (parsed : ℕ) (recv : List Str)
    → Takes head parsed recv (scan_records fuel head parsed recv)
unfolding scan_records
scan_records-Takes zero head parsed recv = tt
scan_records-Takes (suc fuel) head parsed recv =
    go (round head parsed recv) refl (round-RoundTakes head parsed recv) (scan_records-Takes fuel)
  where
    go :
        (r : Round)
        → round head parsed recv ≡ r
        → RoundTakes head parsed recv r
        → ((h : Str) (p : ℕ) (r : List Str) → Takes h p r (scan_records fuel h p r))
        → Takes head parsed recv (scan_records (suc fuel) head parsed recv)
    go (stop o) e t others = rw (scan_stop fuel head parsed recv _ e) t
    go (next h p r) e (k, x, small, sum, same, step) others =
        rw (scan_next fuel head h parsed p recv r e) (
          Takes-next head h parsed p k recv r x (scan_records fuel h p r) small sum same step
            (others h p r))
