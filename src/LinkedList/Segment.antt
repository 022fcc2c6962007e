-- ===== src/LinkedList/Segment.antt =====
-- Runs of linked nodes (server-5204/util/list.h): what a write to a link leaves of them.
use expert_spoon.Prelude.{
  ℕ, ◌≡◌, refl, ap, ◌∙◌, false, Option, none, some, List, [], ◌∷◌, ◌++◌, ◌==◌, All, ==_refl, arith,
}
use expert_spoon.LinkedList.{Node, link_next, link_prev}

-- The first node of a run, or what stands behind it; the last, or what stands before it.
abbrev pub first_or : List ℕ → Option ℕ → Option ℕ
first_or [] n = n
first_or (x ∷ xs) n = some x

abbrev pub last_or : List ℕ → Option ℕ → Option ℕ
last_or [] p = p
last_or (x ∷ xs) p = last_or xs (some x)

-- A run of nodes behind `p` and before `n`.
abbrev pub Segment : (ℕ → Node) → Option ℕ → List ℕ → Option ℕ → Type 0
Segment h p [] n = Unit
Segment h p (x ∷ xs) n = ((h x).prev ≡ p) × ((h x).next ≡ first_or xs n) × Segment h (some x) xs n

abbrev pub Absent : ℕ → List ℕ → Type 0
Absent a = All (λ x. (x == a) ≡ false)

abbrev pub NotIn : Option ℕ → List ℕ → Type 0
NotIn none xs = Unit
NotIn (some a) xs = Absent a xs

abbrev pub Distinct : List ℕ → Type 0
Distinct [] = Unit
Distinct (x ∷ xs) = Absent x xs × Distinct xs

pub Segment-split :
    (h : ℕ → Node) (p n : Option ℕ) (xs ys : List ℕ)
    → Segment h p (xs ++ ys) n
    → Segment h p xs (first_or ys n) × Segment h (last_or xs p) ys n
Segment-split h p n [] ys s = (tt, s)
Segment-split h p n (x ∷ []) ys s = ((s.0, s.1, tt), s.2)
Segment-split h p n (x ∷ y ∷ xs) ys s =
    let r = Segment-split h (some x) n (y ∷ xs) ys s.2 in ((s.0, s.1, r.0), r.1)

pub Segment-join :
    (h : ℕ → Node) (p n : Option ℕ) (xs ys : List ℕ)
    → Segment h p xs (first_or ys n)
    → Segment h (last_or xs p) ys n
    → Segment h p (xs ++ ys) n
Segment-join h p n [] ys s t = t
Segment-join h p n (x ∷ []) ys s t = (s.0, s.1, t)
Segment-join h p n (x ∷ y ∷ xs) ys s t = (s.0, s.1, Segment-join h (some x) n (y ∷ xs) ys s.2 t)

-- Nodes that are as they were.
abbrev pub Same : (ℕ → Node) → (ℕ → Node) → List ℕ → Type 0
Same h h' = All (λ x. h' x ≡ h x)

pub Segment-Same :
    (h h' : ℕ → Node) (p n : Option ℕ) (xs : List ℕ)
    → Same h h' xs
    → Segment h p xs n
    → Segment h' p xs n
Segment-Same h h' p n [] e s = tt
Segment-Same h h' p n (x ∷ xs) e s = (
  ap (λ (v : Node). v.prev) e.0 ∙ s.0,
  ap (λ (v : Node). v.next) e.0 ∙ s.1,
  Segment-Same h h' (some x) n xs e.1 s.2,
)

pub link_next-Same :
    (a v : Option ℕ) (h : ℕ → Node) (xs : List ℕ) → NotIn a xs → Same h (link_next a v h) xs
unfolding link_next
link_next-Same none v h [] e = tt
link_next-Same (some a) v h [] e = tt
link_next-Same none v h (x ∷ xs) e = (refl, link_next-Same none v h xs tt)
link_next-Same (some a) v h (x ∷ xs) e = (rw (e.0) refl, link_next-Same (some a) v h xs e.1)

pub link_prev-Same :
    (a v : Option ℕ) (h : ℕ → Node) (xs : List ℕ) → NotIn a xs → Same h (link_prev a v h) xs
unfolding link_prev
link_prev-Same none v h [] e = tt
link_prev-Same (some a) v h [] e = tt
link_prev-Same none v h (x ∷ xs) e = (refl, link_prev-Same none v h xs tt)
link_prev-Same (some a) v h (x ∷ xs) e = (rw (e.0) refl, link_prev-Same (some a) v h xs e.1)

pub not_equal : (a b : ℕ) → (a == b) ≡ false → (b == a) ≡ false
not_equal a b h = ground arith

-- The last of nodes that are not among others.
pub last_or-NotIn :
    (q : Option ℕ) (xs zs : List ℕ)
    → NotIn q zs
    → All (λ x. Absent x zs) xs
    → NotIn (last_or xs q) zs
last_or-NotIn q [] zs h a = h
last_or-NotIn q (x ∷ xs) zs h a = last_or-NotIn (some x) xs zs a.0 a.1

pub All-Absent : (a : ℕ) (xs : List ℕ) → Absent a xs → All (λ x. Absent x (a ∷ [])) xs
All-Absent a [] h = tt
All-Absent a (x ∷ xs) h = ((not_equal x a h.0, tt), All-Absent a xs h.1)

-- The last node's link set to `m`.
pub relink_end :
    (h : ℕ → Node) (p n m : Option ℕ) (xs : List ℕ)
    → Distinct xs
    → Segment h p xs n
    → Segment (link_next (last_or xs p) m h) p xs m
unfolding link_next
relink_end h p n m [] d s = tt
relink_end h p n m (x ∷ []) d s = rw (==_refl x) (s.0, refl, tt)
relink_end h p n m (x ∷ y ∷ xs) d s =
    let apart = All-Absent x (y ∷ xs) d.0 in
    let kept : Same h (link_next (last_or xs (some y)) m h) (x ∷ []) =
      link_next-Same (last_or xs (some y)) m h (x ∷ [])
        (last_or-NotIn (some y) xs (x ∷ []) apart.0 apart.1) in
    (
      ap (λ (v : Node). v.prev) kept.0 ∙ s.0,
      ap (λ (v : Node). v.next) kept.0 ∙ s.1,
      relink_end h (some x) n m (y ∷ xs) d.1 s.2,
    )

-- The first node's link set to `q`.
pub relink_start :
    (h : ℕ → Node) (p q n : Option ℕ) (xs : List ℕ)
    → Distinct xs
    → Segment h p xs n
    → Segment (link_prev (first_or xs none) q h) q xs n
unfolding link_prev
relink_start h p q n [] d s = tt
relink_start h p q n (x ∷ xs) d s = (
  ap (λ (v : Node). v.prev) here,
  ap (λ (v : Node). v.next) here ∙ s.1,
  Segment-Same h (link_prev (some x) q h) (some x) n xs (link_prev-Same (some x) q h xs d.0) s.2,
)
  where
    here : link_prev (some x) q h x ≡ record (h x) { prev = q }
    here = rw (==_refl x) refl
