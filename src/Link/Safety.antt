-- ===== src/Link/Safety.antt =====
-- The loop of `Link::parse` on any bytes (server-5204/link.cpp): it ends, takes no more than there
-- is, and ends a packet only behind a record.
use expert_spoon.Prelude.{
  ℕ, zero, suc, ◌+◌, ◌≤◌, ◌<◌, ◌≡◌, refl, true, inl, inr, some, List, [], ◌∷◌, ◌++◌, Str, arith,
  ltb, ltb→le, leb, newline, length, length-append, length-drop, take, drop, int_limit, Bool-cases,
  Option-cases,
}
use expert_spoon.Framing.{memchr, at, header_value}
use expert_spoon.Link.Parse.{
  Scan, bad, done, waiting, scan_overflow, scan_spent, Round, stop, next, is_packet_end, separator,
  round_end, round_body, round_line, round, is_blank, scan_records,
}
use expert_spoon.Link.Packet.{scan_next, scan_stop}

memchr-lt : (s : Str) (c n : ℕ) → memchr s c ≡ some n → n < length s
unfolding memchr
memchr-lt [] c n h = ground arith
memchr-lt (x ∷ s) c n h = elim (Option-cases (memchr s c)) [
  | inl e ↦ ground arith
  | inr (m, e) ↦ ground (arith, memchr-lt s c m e)
]

-- What a round behind a record's header leaves: it takes no more than there is, and takes something
-- and keeps a record if it goes on.
abbrev Bounded : Str → ℕ → Round → Type 0
Bounded head parsed (stop (done n recv)) = ⊥
Bounded head parsed (stop scan_spent) = ⊥
Bounded head parsed (stop _) = Unit
Bounded head parsed (next h p r) =
    (p + length h ≡ parsed + length head) × (length h < length head) × (1 ≤ length r)

separator_bounds : (s : Str) (k : ℕ) → separator s ≡ some k → (1 ≤ k) × (k ≤ length s)
unfolding separator
separator_bounds [] k h = ground arith
separator_bounds (c ∷ s) k h = ground arith

round_end-Bounded :
    (s : Str) (parsed : ℕ) (recv : List Str)
    → 1 ≤ length recv
    → Bounded s parsed (round_end s parsed recv)
unfolding round_end
round_end-Bounded s parsed recv some_record = elim (Option-cases (separator s)) [
  | inl e ↦ rw (e, Bounded, round_end) tt
  | inr (k, e) ↦ ground (arith, separator_bounds s k e, length-drop k s)
]

Bounded-drop :
    (head : Str) (parsed n : ℕ) (r : Round)
    → n ≤ length head
    → 1 ≤ n
    → Bounded (drop n head) (parsed + n) r
    → Bounded head parsed r
Bounded-drop head parsed n (stop (bad recv)) h k b = b
Bounded-drop head parsed n (stop (done m recv)) h k b = b
Bounded-drop head parsed n (stop (waiting recv)) h k b = b
Bounded-drop head parsed n (stop scan_overflow) h k b = b
Bounded-drop head parsed n (stop scan_spent) h k b = b
Bounded-drop head parsed n (next s p recv) h k b =
    (omega (arith, length-drop n head, b.0), omega (arith, length-drop n head, b.1), b.2)

round_body-Bounded :
    (head : Str) (parsed : ℕ) (recv : List Str) (n len : ℕ)
    → Bounded head parsed (round_body head parsed recv n len)
unfolding round_body
round_body-Bounded head parsed recv n len =
    let recv' = recv ++ take len (drop (n + 1) head) ∷ [] in
    elim (Bool-cases (leb int_limit (n + 1 + len))) [
      | inl e ↦ rw (e, Bounded) tt
      | inr e ↦ elim (Bool-cases (ltb (length head) (n + 1 + len))) [
        | inl e' ↦ rw (e, e', Bounded) tt
        | inr e' ↦
            rw (e, e')
              (Bounded-drop head parsed (n + 1 + len)
                (round_end (drop (n + 1 + len) head) (parsed + (n + 1 + len)) recv') (ltb→le _ _ e')
                (omega arith)
                (round_end-Bounded (drop (n + 1 + len) head) (parsed + (n + 1 + len)) recv'
                  (omega (arith, length-append {0} recv (take len (drop (n + 1) head) ∷ [])))))
      ]
    ]

-- What a whole round leaves. Only a line that begins with a blank ends the packet.
abbrev BoundedRound : Str → ℕ → List Str → Round → Type 0
BoundedRound head parsed recv (stop (done n r)) =
    (n ≤ parsed + length head) × (is_blank (at head 0) ≡ true) × (r ≡ recv)
BoundedRound head parsed recv (stop (bad r)) = Unit
BoundedRound head parsed recv (stop r) = Bounded head parsed (stop r)
BoundedRound head parsed recv (next h p r) = Bounded head parsed (next h p r)

weaken :
    (head : Str) (parsed : ℕ) (recv : List Str) (r : Round)
    → Bounded head parsed r
    → BoundedRound head parsed recv r
weaken head parsed recv (stop (bad r)) b = tt
weaken head parsed recv (stop (done n r)) b = absurd b
weaken head parsed recv (stop (waiting r)) b = b
weaken head parsed recv (stop scan_overflow) b = b
weaken head parsed recv (stop scan_spent) b = b
weaken head parsed recv (next h p r) b = b

memchr_zero : (s : Str) → memchr s newline ≡ some 0 → is_blank (at s 0) ≡ true
unfolding memchr
memchr_zero [] h = ground arith
memchr_zero (x ∷ s) h = elim (Option-cases (memchr s newline)) [
  | inl e ↦ ground arith
  | inr (n, e) ↦ ground arith
]

packet_end-blank :
    (head : Str) (n : ℕ)
    → memchr head newline ≡ some n
    → is_packet_end head n ≡ true
    → is_blank (at head 0) ≡ true
unfolding is_packet_end
packet_end-blank head zero h e = memchr_zero head h
packet_end-blank head (suc n) h e = ground arith

round_line-Bounded :
    (head : Str) (parsed : ℕ) (recv : List Str) (n : ℕ)
    → memchr head newline ≡ some n
    → BoundedRound head parsed recv (round_line head parsed recv n)
unfolding round_line
round_line-Bounded head parsed recv n found = elim (Bool-cases (is_packet_end head n)) [
  | inl e ↦
      rw (e, BoundedRound)
        (omega (arith, memchr-lt head newline n found), packet_end-blank head n found e, refl)
  | inr e ↦ elim (Option-cases (header_value head n)) [
    | inl e' ↦ rw (e, e', BoundedRound) tt
    | inr (len, e') ↦
        rw (e, e')
          (weaken head parsed recv (round_body head parsed recv n len)
            (round_body-Bounded head parsed recv n len))
  ]
]

pub round-Bounded :
    (head : Str) (parsed : ℕ) (recv : List Str)
    → BoundedRound head parsed recv (round head parsed recv)
unfolding round
round-Bounded head parsed recv = elim (Option-cases (memchr head newline)) [
  | inl e ↦ rw (e, BoundedRound, round) tt
  | inr (n, e) ↦ rw (e, round) (round_line-Bounded head parsed recv n e)
]

-- What the loop leaves: it ends, takes no more than there is, and a packet holds a record.
abbrev pub Ends : ℕ → Scan → Type 0
Ends limit (done n recv) = (n ≤ limit) × (1 ≤ length recv)
Ends limit scan_spent = ⊥
Ends limit _ = Unit

pub scan_records-Ends :
    (fuel : ℕ) (head : Str) (parsed : ℕ) (recv : List Str)
    → length head < fuel
    → (is_blank (at head 0) ≡ true → 1 ≤ length recv)
    → Ends (parsed + length head) (scan_records fuel head parsed recv)
scan_records-Ends zero head parsed recv f h = absurd (omega arith)
scan_records-Ends (suc fuel) head parsed recv f h =
    go (round head parsed recv) refl (round-Bounded head parsed recv) (scan_records-Ends fuel)
  where
    go :
        (r : Round)
        → round head parsed recv ≡ r
        → BoundedRound head parsed recv r
        → ((h : Str) (p : ℕ) (r : List Str)
            → length h < fuel
            → (is_blank (at h 0) ≡ true → 1 ≤ length r)
            → Ends (p + length h) (scan_records fuel h p r))
        → Ends (parsed + length head) (scan_records (suc fuel) head parsed recv)
    go (stop (bad r)) e b next_rounds = rw (scan_stop fuel head parsed recv _ e) tt
    go (stop (done n r)) e b next_rounds =
        rw (scan_stop fuel head parsed recv _ e) (b.0, rw b.2 (h b.1))
    go (stop (waiting r)) e b next_rounds = rw (scan_stop fuel head parsed recv _ e) tt
    go (stop scan_overflow) e b next_rounds = rw (scan_stop fuel head parsed recv _ e) tt
    go (stop scan_spent) e b next_rounds = absurd b
    go (next h' p r) e b next_rounds =
        rw (scan_next fuel head h' parsed p recv r e, ← b.0)
          (next_rounds h' p r (omega (arith, b.1)) (λ _. b.2))
