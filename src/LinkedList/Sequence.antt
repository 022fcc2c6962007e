-- ===== src/LinkedList/Sequence.antt =====
-- LinkedList (server-5204/util/list.h) as a sequence of nodes.
use expert_spoon.Prelude.{
  ℕ, suc, ◌+◌, ◌-◌, ◌%◌, ◌^◌, ◌<◌, ◌≡◌, refl, sym, ap, ◌∙◌, subst, false, Option, none, some, List,
  [], ◌∷◌, ◌++◌, if◌then◌else◌, ◌==◌, ==_refl, All, All-append, append-nil, arith, length,
  length-append,
}
use expert_spoon.LinkedList.Segment.{
  first_or, last_or, Segment, Absent, NotIn, Distinct, Segment-split, Segment-join, Same,
  Segment-Same, link_next-Same, link_prev-Same, not_equal, last_or-NotIn, All-Absent, relink_end,
  relink_start,
}
use expert_spoon.LinkedList.{Node, LinkedList, link_next, link_prev, is_at, remove}

-- The list's nodes, in order.
pub record IsList (l : LinkedList) (xs : List ℕ) : Type 0 where
  pub head_first : l.head ≡ first_or xs none
  pub tail_last : l.tail ≡ last_or xs none
  pub links : Segment l.nodes none xs none
  pub distinct : Distinct xs
  pub counted : l.size ≡ length xs

module _ {ℓ κ} {A : Type ℓ} (P : A → Type κ) where
  All-split : (xs ys : List A) → All P (xs ++ ys) → All P xs × All P ys
  All-split [] ys h = (tt, h)
  All-split (x ∷ xs) ys h = let r = All-split xs ys h.1 in ((h.0, r.0), r.1)

-- Two runs that have no node in common.
abbrev pub Apart : List ℕ → List ℕ → Type 0
Apart xs zs = All (λ x. Absent x zs) xs

Distinct-split : (xs zs : List ℕ) → Distinct (xs ++ zs) → Distinct xs × Distinct zs × Apart xs zs
Distinct-split [] zs d = (tt, d, tt)
Distinct-split (x ∷ xs) zs d =
    let (dx, dz, a) = Distinct-split xs zs d.1 in
    let (ax, az) = All-split (λ y. (y == x) ≡ false) xs zs d.0 in ((ax, dx), dz, (az, a))

pub Distinct-join : (xs zs : List ℕ) → Distinct xs → Distinct zs → Apart xs zs → Distinct (xs ++ zs)
Distinct-join [] zs dx dz a = dz
Distinct-join (x ∷ xs) zs dx dz a =
    (All-append (λ y. (y == x) ≡ false) xs zs dx.0 a.0, Distinct-join xs zs dx.1 dz a.1)

-- What stands in the second run is not in the first.
first_or-NotIn : (xs zs : List ℕ) → Apart xs zs → NotIn (first_or zs none) xs
first_or-NotIn xs [] a = tt
first_or-NotIn [] (z ∷ zs) a = tt
first_or-NotIn (x ∷ xs) (z ∷ zs) a = (not_equal z x a.0.0, first_or-NotIn xs (z ∷ zs) a.1)

Apart-tail : (z : ℕ) (xs zs : List ℕ) → Apart xs (z ∷ zs) → Apart xs zs
Apart-tail z [] zs a = tt
Apart-tail z (x ∷ xs) zs a = (a.0.1, Apart-tail z xs zs a.1)

Apart-head : (z : ℕ) (xs zs : List ℕ) → Apart xs (z ∷ zs) → Apart xs (z ∷ [])
Apart-head z [] zs a = tt
Apart-head z (x ∷ xs) zs a = ((a.0.0, tt), Apart-head z xs zs a.1)

pub last_or_append :
    (xs : List ℕ) (t : ℕ) (ys : List ℕ) (p : Option ℕ)
    → last_or (xs ++ t ∷ ys) p ≡ last_or ys (some t)
last_or_append [] t ys p = refl
last_or_append (x ∷ xs) t ys p = last_or_append xs t ys (some x)

shorter : (n k : ℕ) → n ≡ suc k → n < 2 ^ 32 → (n + (2 ^ 32 - 1)) % 2 ^ 32 ≡ k
shorter n k e h = omega arith

pub longer : (n : ℕ) → n < 2 ^ 31 - 1 → (n + 1) % 2 ^ 32 ≡ suc n
longer n h = omega arith

-- The neighbours of `t` linked to each other.
record Unlinked (h : ℕ → Node) (xs : List ℕ) (t : ℕ) (ys : List ℕ) (h1 h' : ℕ → Node) : Type 0 where
  links : Segment h' none (xs ++ ys) none
  between : h1 t ≡ h t
  itself : h' t ≡ h t
  before_t : (h t).prev ≡ last_or xs none
  after_t : (h t).next ≡ first_or ys none

unlinked :
    (h : ℕ → Node) (xs : List ℕ) (t : ℕ) (ys : List ℕ)
    → Segment h none (xs ++ t ∷ ys) none
    → Distinct (xs ++ t ∷ ys)
    → (let h1 = link_next (last_or xs none) (first_or ys none) h in
        Unlinked h xs t ys h1 (link_prev (first_or ys none) (last_or xs none) h1))
unlinked h xs t ys s d =
    let p = last_or xs none in
    let n = first_or ys none in
    let h1 = link_next p n h in
    let h2 = link_prev n p h1 in
    let (sx, st) = Segment-split h none none xs (t ∷ ys) s in
    let (dx, dz, a) = Distinct-split xs (t ∷ ys) d in
    let left : Segment h1 none xs n = relink_end h none (some t) n xs dx sx in
    let left' : Segment h2 none xs n =
      Segment-Same h1 h2 none n xs
        (link_prev-Same n p h1 xs (first_or-NotIn xs ys (Apart-tail t xs ys a))) left in
    let right : Segment h1 (some t) ys none =
      Segment-Same h h1 (some t) none ys
        (link_next-Same p n h ys (last_or-NotIn none xs ys tt (Apart-tail t xs ys a))) st.2 in
    let right' : Segment h2 p ys none = relink_start h1 (some t) p none ys dz.1 right in
    let before : Same h h1 (t ∷ []) =
      link_next-Same p n h (t ∷ []) (last_or-NotIn none xs (t ∷ []) tt (Apart-head t xs ys a)) in
    let behind : Same h1 h2 (t ∷ []) = link_prev-Same n p h1 (t ∷ []) (behind_t ys dz.0) in
    record {
      links = Segment-join h2 none none xs ys left' right';
      between = before.0;
      itself = behind.0 ∙ before.0;
      before_t = st.0;
      after_t = st.1;
    }
  where
    behind_t : (ys : List ℕ) → Absent t ys → NotIn (first_or ys none) (t ∷ [])
    behind_t [] a = tt
    behind_t (y ∷ ys) a = (not_equal y t a.0, tt)

-- `remove` where the neighbours are known.
removed : Option ℕ → Option ℕ → ℕ → LinkedList → LinkedList
removed p n t l = record {
  nodes = link_prev n p (link_next p n l.nodes);
  size = (l.size + (2 ^ 32 - 1)) % 2 ^ 32;
  head = if is_at l.head t then n else l.head;
  tail = if is_at l.tail t then p else l.tail;
}

remove-removed :
    (l : LinkedList) (p n : Option ℕ) (t : ℕ)
    → (l.nodes t).prev ≡ p
    → (l.nodes t).next ≡ n
    → link_next p n l.nodes t ≡ l.nodes t
    → link_prev n p (link_next p n l.nodes) t ≡ l.nodes t
    → remove t l ≡ removed p n t l
unfolding remove removed
remove-removed l p n t ep en e1 e2 =
    rw (ep, en) (rw (e1) (rw (ep, en) (rw (e2) (rw (ep, en) refl))))

head_after :
    (xs : List ℕ) (t : ℕ) (ys : List ℕ)
    → Apart xs (t ∷ ys)
    → (let o = first_or (xs ++ t ∷ ys) none in if is_at o t then first_or ys none else o)
      ≡ first_or (xs ++ ys) none
head_after [] t ys a = rw (==_refl t) refl
head_after (x ∷ xs) t ys a = rw (not_equal t x a.0.0) refl

not_at : (o : Option ℕ) (t : ℕ) → NotIn o (t ∷ []) → is_at o t ≡ false
not_at none t h = refl
not_at (some x) t h = not_equal t x h.0

tail_after :
    (xs : List ℕ) (t : ℕ) (ys : List ℕ)
    → Absent t ys
    → (let o = last_or (xs ++ t ∷ ys) none in if is_at o t then last_or xs none else o)
      ≡ last_or (xs ++ ys) none
tail_after xs t [] d =
    rw (last_or_append xs t [] none, ==_refl t) (ap (λ zs. last_or zs none) (sym (append-nil xs)))
tail_after xs t (y ∷ ys) d =
    let apart = All-Absent t (y ∷ ys) d in
    rw
      (
        last_or_append xs t (y ∷ ys) none,
        not_at (last_or ys (some y)) t (last_or-NotIn (some y) ys (t ∷ []) apart.0 apart.1),
      )
      (sym (last_or_append xs y ys none))

removed-IsList :
    (l : LinkedList) (xs : List ℕ) (t : ℕ) (ys : List ℕ)
    → IsList l (xs ++ t ∷ ys)
    → length (xs ++ t ∷ ys) < 2 ^ 31
    → IsList (removed (last_or xs none) (first_or ys none) t l) (xs ++ ys)
unfolding removed
removed-IsList l xs t ys v small =
    let (dx, dz, a) = Distinct-split xs (t ∷ ys) v.distinct in
    record {
      head_first =
          ap (λ o. if is_at o t then first_or ys none else o) v.head_first ∙ head_after xs t ys a;
      tail_last =
          ap (λ o. if is_at o t then last_or xs none else o) v.tail_last ∙ tail_after xs t ys dz.0;
      links = (unlinked l.nodes xs t ys v.links v.distinct).links;
      distinct = Distinct-join xs ys dx dz.1 (Apart-tail t xs ys a);
      counted =
          shorter l.size (length (xs ++ ys))
            (omega (arith, v.counted, length-append xs (t ∷ ys), length-append xs ys))
            (omega (arith, v.counted, small));
    }

pub remove-IsList :
    (l : LinkedList) (xs : List ℕ) (t : ℕ) (ys : List ℕ)
    → IsList l (xs ++ t ∷ ys)
    → length (xs ++ t ∷ ys) < 2 ^ 31
    → IsList (remove t l) (xs ++ ys)
remove-IsList l xs t ys v small =
    let u = unlinked l.nodes xs t ys v.links v.distinct in
    subst (λ x. IsList x (xs ++ ys))
      (sym (
        remove-removed l (last_or xs none) (first_or ys none) t u.before_t u.after_t u.between
          u.itself))
      (removed-IsList l xs t ys v small)
