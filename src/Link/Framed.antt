-- ===== src/Link/Framed.antt =====
-- The form of a packet's bytes (server-5204/link.cpp), and that the loop of `Link::parse` ends a packet only behind
-- bytes of that form.
use expert_spoon.Prelude.{
  ℕ, zero, suc, ◌+◌, ◌≤◌, ◌<◌, ◌≡◌, sym, subst, ◌∙◌, true, false, inl, inr, some, none, List, [],
  ◌∷◌, ◌⊎◌, Str, arith, ◌==◌, newline, carriage_return, length, take, drop, int_limit, Bool-cases,
  Option-cases,
}
use expert_spoon.Framing.{memchr, memchr_here, at, header_value}
use expert_spoon.Link.Parse.{is_packet_end, separator}

-- A line end at the front, and its number of bytes.
pub data LineEnd : Str → ℕ → Type 0 where
  unix : {s : Str} → LineEnd (newline ∷ s) 1
  dos : {s : Str} → LineEnd (carriage_return ∷ newline ∷ s) 2

-- Records at the front, each a line with the length of the body, the body and a line end; with the number
-- of their bytes and what stands behind them.
pub data Records : Str → List Str → ℕ → Str → Type 0 where
  no_record : {s : Str} → Records s [] 0 s
  record_then :
      {s rest : Str} {recv : List Str} {k : ℕ} (n len j : ℕ)
      → memchr s newline ≡ some n
      → header_value s n ≡ some len
      → n + 1 + len ≤ length s
      → LineEnd (drop (n + 1 + len) s) j
      → Records (drop j (drop (n + 1 + len) s)) recv k rest
      → Records s (take len (drop (n + 1) s) ∷ recv) (n + 1 + len + j + k) rest

-- Some number of records at the front, and what holds of them, of their bytes and of what stands behind.
abbrev pub Reaches : Str → (List Str → ℕ → Str → Type 0) → Type 0
Reaches s P = (recv : List Str) × (k : ℕ) × (rest : Str) × Records s recv k rest × P recv k rest

-- What stands at the place of a record: the packet's end; a part of a record that may yet be completed, or
-- a body with no line end behind it; a line that is no header; or a header whose sum with the length that it
-- states is no `int`.
abbrev pub Unfinished : Str → Type 0
Unfinished s =
    (memchr s newline ≡ none)
    ⊎ ((n : ℕ) × (len : ℕ) × (memchr s newline ≡ some n)
        × (header_value s n ≡ some len)
        × ((length s < n + 1 + len)
            ⊎ ((n + 1 + len ≤ length s) × ((j : ℕ) → LineEnd (drop (n + 1 + len) s) j → ⊥))))

abbrev pub BadLine : Str → Type 0
BadLine s =
    (n : ℕ) × (memchr s newline ≡ some n) × (header_value s n ≡ none) × ((j : ℕ) → LineEnd s j → ⊥)

abbrev pub Oversized : Str → Type 0
Oversized s =
    (n : ℕ) × (len : ℕ) × (memchr s newline ≡ some n)
    × (header_value s n ≡ some len)
    × (int_limit ≤ n + 1 + len)

unix_at : (c : ℕ) (s : Str) → c ≡ newline → LineEnd (c ∷ s) 1
unix_at c s e = subst (λ x. LineEnd (x ∷ s) 1) (sym e) unix

dos_at : (c d : ℕ) (s : Str) → c ≡ carriage_return → d ≡ newline → LineEnd (c ∷ d ∷ s) 2
dos_at c d s e e' =
    subst (λ x. LineEnd (x ∷ d ∷ s) 2) (sym e)
      (subst (λ x. LineEnd (carriage_return ∷ x ∷ s) 2) (sym e') dos)

separator_cases :
    (c : ℕ) (s : Str) (k : ℕ)
    → separator (c ∷ s) ≡ some k
    → ((c ≡ newline) × (k ≡ 1))
      ⊎ ((c ≡ carriage_return) × (at s 0 ≡ newline) × (1 ≤ length s) × (k ≡ 2))
unfolding separator
separator_cases c s k h = elim (Bool-cases (c == newline)) [
  | inl e ↦ inl (ground arith)
  | inr e ↦ inr (ground arith)
]

pub separator-LineEnd : (s : Str) (k : ℕ) → separator s ≡ some k → LineEnd s k
separator-LineEnd [] k h = absurd (nothing (unfold separator in h))
  where
    nothing : none ≡ some k → ⊥
    nothing p = cc
separator-LineEnd (c ∷ s) k h = elim (separator_cases c s k h) [
  | inl (e, n) ↦ subst (LineEnd (c ∷ s)) (sym n) (unix_at c s e)
  | inr (e, e', l, n) ↦ subst (LineEnd (c ∷ s)) (sym n) (two s e e' l)
]
  where
    two : (t : Str) → c ≡ carriage_return → at t 0 ≡ newline → 1 ≤ length t → LineEnd (c ∷ t) 2
    two [] e e' l = absurd (omega arith)
    two (d ∷ t) e e' l = dos_at c d t e e'

newline_here : (c : ℕ) (s : Str) → memchr (c ∷ s) newline ≡ some 0 → c ≡ newline
unfolding memchr
newline_here c s h = elim (Option-cases (memchr s newline)) [
  | inl e ↦ ground arith
  | inr (m, e) ↦ ground arith
]

memchr_next :
    (c : ℕ) (s : Str) (n : ℕ) → memchr (c ∷ s) newline ≡ some (suc n) → memchr s newline ≡ some n
unfolding memchr
memchr_next c s n h = elim (Option-cases (memchr s newline)) [
  | inl e ↦ ground arith
  | inr (m, e) ↦ ground arith
]

pub packet_end-LineEnd :
    (s : Str) (n : ℕ) → memchr s newline ≡ some n → is_packet_end s n ≡ true → LineEnd s (n + 1)
packet_end-LineEnd [] n h e = absurd (nothing (unfold memchr in h))
  where
    nothing : none ≡ some n → ⊥
    nothing p = cc
packet_end-LineEnd (c ∷ s) zero h e = unix_at c s (newline_here c s h)
packet_end-LineEnd (c ∷ []) (suc n) h e = absurd (nothing (unfold memchr in memchr_next c [] n h))
  where
    nothing : none ≡ some n → ⊥
    nothing p = cc
packet_end-LineEnd (c ∷ d ∷ s) (suc zero) h e =
    dos_at c d s (unfold is_packet_end in ground arith)
      (newline_here d s (memchr_next c (d ∷ s) 0 h))
packet_end-LineEnd (c ∷ d ∷ s) (suc (suc n)) h e = absurd (unfold is_packet_end in ground arith)

pub separator-none : (s : Str) (j : ℕ) → separator s ≡ none → LineEnd s j → ⊥
unfolding separator
separator-none _ _ h (unix {s}) = ground arith
separator-none _ _ h (dos {s}) = ground arith

some_ℕ : {m n : ℕ} → some m ≡ some n → m ≡ n
some_ℕ p = cc

pub no_packet_end :
    (s : Str) (n j : ℕ) → memchr s newline ≡ some n → is_packet_end s n ≡ false → LineEnd s j → ⊥
unfolding is_packet_end
no_packet_end _ n _ found h (unix {s}) =
    let first = some_ℕ (sym (memchr_here newline s) ∙ found) in ground (arith, first)
no_packet_end _ zero _ found h (dos {s}) =
    let none_here = newline_here carriage_return (newline ∷ s) found in
    absurd (omega (arith, none_here))
no_packet_end _ (suc n) _ found h (dos {s}) =
    let second =
      some_ℕ (sym (memchr_here newline s) ∙ memchr_next carriage_return (newline ∷ s) n found) in
    ground (arith, second)
