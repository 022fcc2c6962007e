-- ===== src/Link/Client/Rounds.antt =====
-- The rounds of `Link::flush` (server-5204/link.cpp): each takes an answer of the kernel.
use expert_spoon.Prelude.{
  ℕ, zero, suc, ◌+◌, ◌-◌, ◌≤◌, ◌≡◌, refl, sym, ap, subst, ◌∙◌, Bool, true, false, inl, inr, some,
  List, [], ◌∷◌, ◌++◌, Str, arith, ◌==◌, if◌then◌else◌, length, take, Bool-cases, Option-cases, min,
}
use expert_spoon.Buffer.{Buffer, Allocator, contents, is_empty, decr, grow}
use expert_spoon.Link.{Link, init_buffer_size}
use expert_spoon.Link.Socket.{
  Departure, accepted, write_interrupted, write_would_block, write_failed, write, drain, Drained,
  write_buffer, write_end, grow_initial, stopped, closed, failed, ReadEnd,
}
use expert_spoon.Link.Client.{Flushed, sent_all, flush_failed, still_waiting, Flush, add_len, flush}
use expert_spoon.Link.Client.Flushing.{flush-empty, flush-failed, flush-round}

rest-if :
    (n : ℕ) (t : Bool) (d f : Drained)
    → length d.rest ≤ n
    → length f.rest ≤ n
    → length (if t then d else f).rest ≤ n
rest-if n true d f hd hf = hd
rest-if n false d f hd hf = hf

drain_rest :
    (noblock : Bool) (es : List Departure) (b : Buffer) (ret : ℕ) (wire : Str)
    → length (drain noblock es b ret wire).rest ≤ length es
unfolding drain
drain_rest noblock [] b ret wire = omega arith
drain_rest noblock (write_interrupted ∷ es) b ret wire =
    rest-if (length (write_interrupted ∷ es)) (is_empty b) _ _ (omega arith)
      (omega (arith, drain_rest noblock es b ret wire))
drain_rest noblock (write_would_block ∷ es) b ret wire = elim (Bool-cases (is_empty b)) [
  | inl e ↦ rw e (omega arith)
  | inr e ↦ rw e (omega arith)
]
drain_rest noblock (write_failed ∷ es) b ret wire =
    rest-if (length (write_failed ∷ es)) (is_empty b) _ _ (omega arith) (omega arith)
drain_rest noblock (accepted n ∷ es) b ret wire =
    let len = min n b.size_ in
    rest-if (length (accepted n ∷ es)) (is_empty b) _ _ (omega arith) (
      rest-if (length (accepted n ∷ es)) (len == 0) _ _ (omega arith) (
        rest-if (length (accepted n ∷ es)) noblock _ _
          (omega
            (arith, drain_rest noblock es (decr len b) (ret + len) (wire ++ take len (contents b))))
          (omega arith)))

-- With bytes to send, the loop takes an answer where there is one.
drain_takes :
    (noblock : Bool) (es : List Departure) (b : Buffer) (ret : ℕ) (wire : Str)
    → is_empty b ≡ false
    → length (drain noblock es b ret wire).rest ≤ length es - 1
unfolding drain
drain_takes noblock [] b ret wire h = omega arith
drain_takes noblock (write_interrupted ∷ es) b ret wire h =
    rw h (omega (arith, drain_rest noblock es b ret wire))
drain_takes noblock (write_would_block ∷ es) b ret wire h = rw h (omega arith)
drain_takes noblock (write_failed ∷ es) b ret wire h = rw h (omega arith)
drain_takes noblock (accepted n ∷ es) b ret wire h =
    let len = min n b.size_ in
    rw h (
      rest-if (length (accepted n ∷ es) - 1) (len == 0) _ _ (omega arith) (
        rest-if (length (accepted n ∷ es) - 1) noblock _ _
          (omega
            (arith, drain_rest noblock es (decr len b) (ret + len) (wire ++ take len (contents b))))
          (omega arith)))

write_end_rest : (e : ReadEnd) (d : Drained) → (write_end e d).3 ≡ d.rest
write_end_rest stopped d = refl
write_end_rest closed d = refl
write_end_rest failed d = refl

module _ (a : Allocator) where
  size-grow : (b c : Buffer) → grow a b ≡ some c → c.size_ ≡ b.size_
  unfolding grow
  size-grow b c h = ground arith

  size-grow_initial : (b : Buffer) → (grow_initial a b).size_ ≡ b.size_
  unfolding grow_initial
  size-grow_initial b = elim (Bool-cases (b.total_ == init_buffer_size)) [
    | inr e ↦ rw e refl
    | inl e ↦ elim (Option-cases (grow a b)) [
      | inl e' ↦ rw (e, e') refl
      | inr (c, e') ↦ rw (e, e') (size-grow b c e')
    ]
  ]

  write_takes :
      (es : List Departure) (l : Link)
      → is_empty l.output ≡ false
      → length (write a es l).3 ≤ length es - 1
  unfolding write write_buffer
  write_takes es l h =
      let b = grow_initial a l.output in
      let d = drain l.noblock_ es b 0 [] in
      let busy : is_empty b ≡ false = ap (λ n. n == 0) (size-grow_initial l.output) ∙ h in
      subst (λ r. length r ≤ length es - 1) (sym (write_end_rest d.end d))
        (drain_takes l.noblock_ es b 0 [] busy)

  abbrev still : Flushed → Bool
  still still_waiting = true
  still (sent_all n) = false
  still flush_failed = false

  still_inside : (n : ℕ) (r : Flushed) → add_len n r ≡ still_waiting → r ≡ still_waiting
  still_inside n (sent_all m) h = cc
  still_inside n flush_failed h = h
  still_inside n still_waiting h = refl

  pub flush-rest :
      (rounds : ℕ) (es : List Departure) (l : Link)
      → (flush a rounds es l).result ≡ still_waiting
      → length (flush a rounds es l).rest ≤ length es - rounds
  flush-rest zero es l h = unfold flush in omega arith
  flush-rest (suc rounds) es l h = elim (Bool-cases (is_empty l.output)) [
    | inl e ↦ absurd (
        differs
          (sym (ap (λ (f : Flush). still f.result) (flush-empty a rounds es l e)) ∙ ap still h))
    | inr e ↦ elim (Option-cases (write a es l).0) [
      | inl e' ↦ absurd (
          differs (
            sym (ap (λ (f : Flush). still f.result) (flush-failed a rounds es l e e'))
            ∙ ap still h))
      | inr (n, e') ↦
          let w = write a es l in
          let round = flush-round a rounds es l n e e' in
          let inside =
            still_inside n (flush a rounds w.3 w.1).result
              (sym (ap (λ (f : Flush). f.result) round) ∙ h) in
          subst (λ f. length f.rest ≤ length es - suc rounds) (sym round)
            (omega (arith, flush-rest rounds w.3 w.1 inside, write_takes es l e))
    ]
  ]
    where
      differs : false ≡ true → ⊥
      differs p = cc

  -- `flush` with at least as many rounds as the kernel has answers returns, or all the answers are
  -- used up: each round takes one.
  pub flush_ends :
      (rounds : ℕ) (es : List Departure) (l : Link)
      → (flush a rounds es l).result ≡ still_waiting
      → length es ≤ rounds
      → (flush a rounds es l).rest ≡ []
  flush_ends rounds es l h few =
      empty (flush a rounds es l).rest (omega (arith, flush-rest rounds es l h))
    where
      empty : (r : List Departure) → length r ≤ 0 → r ≡ []
      empty [] p = refl
      empty (d ∷ r) p = absurd (omega arith)
