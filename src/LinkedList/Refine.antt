-- ===== src/LinkedList/Refine.antt =====
-- LinkedList (server-5204/util/list.h): what it does to a sequence of nodes, and what its iterator gives.
use expert_spoon.Prelude.{
  ℕ, zero, suc, ◌-◌, ◌^◌, ◌<◌, ◌≤◌, ◌≡◌, refl, sym, ap, ◌∙◌, subst, Option, none, some, List, [],
  ◌∷◌, ◌++◌, if◌then◌else◌, ◌==◌, ==_refl, arith, length, length-append,
}
use expert_spoon.LinkedList.Segment.{
  first_or, last_or, Segment, Absent, Distinct, Segment-join, Same, Segment-Same, link_next-Same,
  last_or-NotIn, All-Absent, relink_end,
}
use expert_spoon.LinkedList.Sequence.{IsList, Distinct-join, last_or_append, longer, remove-IsList}
use expert_spoon.LinkedList.{
  Node, LinkedList, link_next, remove, pop_front, push_back, next, iterate,
}

-- The new node's links, and the others'.
abbrev with_node : ℕ → Option ℕ → (ℕ → Node) → ℕ → Node
with_node t p h x = if x == t then record { prev = p; next = none } else h x

with_node-Same :
    (t : ℕ) (p : Option ℕ) (h : ℕ → Node) (xs : List ℕ) → Absent t xs → Same h (with_node t p h) xs
with_node-Same t p h [] a = tt
with_node-Same t p h (x ∷ xs) a = (rw (a.0) refl, with_node-Same t p h xs a.1)

linked_behind :
    (h : ℕ → Node) (xs : List ℕ) (t : ℕ)
    → Segment h none xs none
    → Distinct xs
    → Absent t xs
    → (let p = last_or xs none in
        Segment (link_next p (some t) (with_node t p h)) none (xs ++ t ∷ []) none)
linked_behind h xs t s d a =
    let p = last_or xs none in
    let h0 = with_node t p h in
    let h1 = link_next p (some t) h0 in
    let left : Segment h1 none xs (some t) =
      relink_end h0 none none (some t) xs d
        (Segment-Same h h0 none none xs (with_node-Same t p h xs a) s) in
    let kept : Same h0 h1 (t ∷ []) =
      link_next-Same p (some t) h0 (t ∷ [])
        (last_or-NotIn none xs (t ∷ []) tt (All-Absent t xs a)) in
    let itself : h1 t ≡ record { prev = p; next = none } = kept.0 ∙ node_at t p h in
    Segment-join h1 none none xs (t ∷ []) left
      (ap (λ (v : Node). v.prev) itself, ap (λ (v : Node). v.next) itself, tt)
  where
    node_at :
        (t : ℕ) (p : Option ℕ) (h : ℕ → Node) → with_node t p h t ≡ record { prev = p; next = none }
    node_at t p h = rw (==_refl t) refl

head_behind :
    (x : ℕ) (xs : List ℕ) (a b : Option ℕ)
    → elim (last_or xs (some x)) [ none ↦ a | some u ↦ b ] ≡ b
head_behind x [] a b = refl
head_behind x (y ∷ xs) a b = head_behind y xs a b

new_head :
    (xs : List ℕ) (t : ℕ)
    → elim (last_or xs none) [ none ↦ some t | some u ↦ first_or xs none ]
      ≡ first_or (xs ++ t ∷ []) none
new_head [] t = refl
new_head (x ∷ xs) t = head_behind x xs (some t) (some x)

push_back-IsList :
    (l : LinkedList) (xs : List ℕ) (t : ℕ)
    → IsList l xs
    → Absent t xs
    → length xs < 2 ^ 31 - 1
    → IsList (push_back t l) (xs ++ t ∷ [])
unfolding push_back
push_back-IsList l xs t v a small = record {
  head_first =
      ap (λ o. elim o [ none ↦ some t | some u ↦ l.head ]) v.tail_last
      ∙ ap (λ o. elim (last_or xs none) [ none ↦ some t | some u ↦ o ]) v.head_first
      ∙ new_head xs t;
  tail_last = sym (last_or_append xs t [] none);
  links =
      subst (λ o. Segment (link_next o (some t) (with_node t o l.nodes)) none (xs ++ t ∷ []) none)
        (sym v.tail_last) (linked_behind l.nodes xs t v.links v.distinct a);
  distinct = Distinct-join xs (t ∷ []) v.distinct (tt, tt) (All-Absent t xs a);
  counted =
      longer l.size (omega (arith, v.counted, small))
      ∙ omega (arith, v.counted, length-append xs (t ∷ []));
}

-- Calls in any order, each `push_back` of a node that is not in the list and each `remove` of one that is, in a
-- list that an `int` counts, with the sequence of nodes that they leave.
pub data Run (l : LinkedList) (xs : List ℕ) : LinkedList → List ℕ → Type 0 where
  no_call : Run l xs l xs
  after_push :
      {m : LinkedList} {ys : List ℕ} (t : ℕ)
      → Run l xs m ys
      → Absent t ys
      → length ys < 2 ^ 31 - 1
      → Run l xs (push_back t m) (ys ++ t ∷ [])
  after_remove :
      {m : LinkedList} (ys : List ℕ) (t : ℕ) (zs : List ℕ)
      → Run l xs m (ys ++ t ∷ zs)
      → length (ys ++ t ∷ zs) < 2 ^ 31
      → Run l xs (remove t m) (ys ++ zs)
  after_pop :
      {m n : LinkedList} (t s : ℕ) (zs : List ℕ)
      → Run l xs m (t ∷ zs)
      → length (t ∷ zs) < 2 ^ 31
      → pop_front m ≡ some (s, n)
      → Run l xs n zs

pop_front-first :
    (l : LinkedList) (t : ℕ) (zs : List ℕ) → IsList l (t ∷ zs) → pop_front l ≡ some (t, remove t l)
unfolding pop_front
pop_front-first l t zs v = rw (v.head_first) refl

removed_first :
    (s t : ℕ) (m n : LinkedList)
    → ◌≡◌ {A = Option (ℕ × LinkedList)} (some (t, m)) (some (s, n))
    → m ≡ n
removed_first s t m n e = cc

Run-IsList :
    {l : LinkedList} {xs : List ℕ} {m : LinkedList} {ys : List ℕ}
    → Run l xs m ys
    → IsList l xs
    → IsList m ys
Run-IsList no_call v = v
Run-IsList (after_push {m = m} {ys = ys} t run a small) v =
    push_back-IsList m ys t (Run-IsList run v) a small
Run-IsList (after_remove {m = m} ys t zs run small) v =
    remove-IsList m ys t zs (Run-IsList run v) small
Run-IsList (after_pop {m = m} {n = n} t s zs run small e) v =
    let w = Run-IsList run v in
    subst (λ x. IsList x zs) (removed_first s t (remove t m) n (sym (pop_front-first m t zs w) ∙ e))
      (remove-IsList m [] t zs w small)

iterate-Segment :
    (n : ℕ) (h : ℕ → Node) (p : Option ℕ) (xs : List ℕ)
    → length xs ≤ n
    → Segment h p xs none
    → iterate n h (first_or xs none) ≡ xs
unfolding iterate next
iterate-Segment zero h p [] k s = refl
iterate-Segment (suc n) h p [] k s = refl
iterate-Segment zero h p (x ∷ xs) k s = absurd (omega (arith, k))
iterate-Segment (suc n) h p (x ∷ xs) k s =
    ap (λ o. x ∷ iterate n h o) s.1
    ∙ ap (λ ys. x ∷ ys) (iterate-Segment n h (some x) xs (omega (arith, k)) s.2)

abbrev pub popped_node : Option (ℕ × LinkedList) → Option ℕ
popped_node none = none
popped_node (some (t, l)) = some t

pop_front-first_or :
    (l : LinkedList) (xs : List ℕ) → IsList l xs → popped_node (pop_front l) ≡ first_or xs none
unfolding pop_front
pop_front-first_or l [] v = rw (v.head_first) refl
pop_front-first_or l (x ∷ xs) v = ap popped_node (pop_front-first l x xs v)

-- The list has the nodes `xs`: its links do, an iterator gives them, and `pop_front` the first.
pub record Shows (l : LinkedList) (xs : List ℕ) : Type 0 where
  pub valid : IsList l xs
  pub iterated : (n : ℕ) → length xs ≤ n → iterate n l.nodes l.head ≡ xs
  pub popped : popped_node (pop_front l) ≡ first_or xs none

-- A LinkedList that holds a sequence of nodes holds, after any calls of `push_back`, `remove` and
-- `pop_front`, the sequence that they leave: the links, head, tail and size are its, an iterator
-- gives its nodes in order and `pop_front` the first; where each node pushed is not in the list,
-- each node removed is, and the list's length stays an `int`.
pub Run-Shows :
    {l : LinkedList} {xs : List ℕ} {m : LinkedList} {ys : List ℕ}
    → Run l xs m ys
    → IsList l xs
    → Shows m ys
Run-Shows {m = m} {ys = ys} run v =
    let w = Run-IsList run v in
    record {
      valid = w;
      iterated =
          λ n h. ap (iterate n m.nodes) w.head_first ∙ iterate-Segment n m.nodes none ys h w.links;
      popped = pop_front-first_or m ys w;
    }
