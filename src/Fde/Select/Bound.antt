-- ===== src/Fde/Select/Bound.antt =====
-- The select form of Fdevents (server-5204/fde_select.cpp): its sets and `maxfd` against the flags.
use expert_spoon.Prelude.{
  ℕ, zero, suc, ◌+◌, ◌-◌, ◌≤◌, ◌<◌, ◌≡◌, refl, sym, ap, subst, ◌∙◌, Bool, true, false, not, ◌&&◌,
  ◌||◌, Option, List, arith, ltb, ◌==◌, ==→eq, if◌then◌else◌, set, inl, inr, Bool-cases,
}
use expert_spoon.Fde.{Flags, union, any, meets, Fdevent, with_fde, fde_at}
use expert_spoon.Fde.Entries.{fde_at-with_fde}
use expert_spoon.Fde.Sync.{flags_at, flags_at-set}
use expert_spoon.Fde.Select.{FdSet, fd_set, fd_clr, fd_setsize, Fdevents, set_flags, lower}

-- The sets hold the descriptors subscribed for input and for output, and `maxfd` is not below one that
-- has flags.
pub record IsValid (f : Fdevents) : Type 0 where
  pub reads : (j : ℕ) → f.readset j ≡ (flags_at f.events j).for_in
  pub writes : (j : ℕ) → f.writeset j ≡ (flags_at f.events j).for_out
  pub bounded : (j : ℕ) → f.watched ≤ j → any (flags_at f.events j) ≡ false

pub extended-IsValid :
    (f : Fdevents) (fd : ℕ) → IsValid f → IsValid (record f { events = with_fde fd f.events })
extended-IsValid f fd v =
    let same : (j : ℕ) → flags_at f.events j ≡ flags_at (with_fde fd f.events) j =
      λ j. ap (λ (e : Fdevent). e.s_flags) (sym (fde_at-with_fde fd f.events j)) in
    record {
      reads = λ j. v.reads j ∙ ap (λ (s : Flags). s.for_in) (same j);
      writes = λ j. v.writes j ∙ ap (λ (s : Flags). s.for_out) (same j);
      bounded = λ j h. ap any (sym (same j)) ∙ v.bounded j h;
    }

set_bit :
    (b : Bool) (fd j : ℕ) (s : FdSet) (old : Bool)
    → s fd ≡ old
    → (if b then fd_set fd s else s) j ≡ (if fd == j then old || b else s j)
set_bit b fd j s old h = elim (Bool-cases (fd == j)) [
  | inr e ↦ rw e (other b e)
  | inl e ↦ rw e (here b old e h)
]
  where
    other : (b : Bool) → (fd == j) ≡ false → (if b then fd_set fd s else s) j ≡ s j
    other true e = rw e refl
    other false e = refl

    here :
        (b old : Bool) → (fd == j) ≡ true → s fd ≡ old → (if b then fd_set fd s else s) j ≡ old || b
    here true true e h = rw e refl
    here true false e h = rw e refl
    here false true e h = ap s (sym (==→eq fd j e)) ∙ h
    here false false e h = ap s (sym (==→eq fd j e)) ∙ h

pub clr_bit :
    (b : Bool) (fd j : ℕ) (s : FdSet) (old : Bool)
    → s fd ≡ old
    → (if b then fd_clr fd s else s) j ≡ (if fd == j then old && not b else s j)
clr_bit b fd j s old h = elim (Bool-cases (fd == j)) [
  | inr e ↦ rw e (other b e)
  | inl e ↦ rw e (here b old e h)
]
  where
    other : (b : Bool) → (fd == j) ≡ false → (if b then fd_clr fd s else s) j ≡ s j
    other true e = rw e refl
    other false e = refl

    here :
        (b old : Bool)
        → (fd == j) ≡ true
        → s fd ≡ old
        → (if b then fd_clr fd s else s) j ≡ old && not b
    here true true e h = rw e refl
    here true false e h = rw e refl
    here false true e h = ap s (sym (==→eq fd j e)) ∙ h
    here false false e h = ap s (sym (==→eq fd j e)) ∙ h

-- A bit of the flags that a table has, where one entry was written.
pub bit-set :
    (bit : Flags → Bool) (es : List Fdevent) (fd j : ℕ) (v : Fdevent) (s : Bool)
    → s ≡ bit (flags_at es j)
    → (if fd == j then bit v.s_flags else s) ≡ bit (flags_at (set (with_fde fd es) fd v) j)
bit-set bit es fd j v s h = chosen (fd == j) ∙ ap bit (sym (flags_at-set es fd j v))
  where
    chosen :
        (c : Bool) → (if c then bit v.s_flags else s) ≡ bit (if c then v.s_flags else flags_at es j)
    chosen true = refl
    chosen false = h

pub lower_bound :
    (n : ℕ) (es : List Fdevent) (j : ℕ) → lower n es ≤ j → j < n → any (flags_at es j) ≡ false
unfolding lower
lower_bound zero es j h p = absurd (omega arith)
lower_bound (suc n) es j h p = elim (Bool-cases (any (fde_at n es).s_flags)) [
  | inl e ↦ absurd (omega (arith, kept e))
  | inr e ↦ elim (Bool-cases (j == n)) [
    | inl e' ↦ ap (λ i. any (flags_at es i)) (==→eq j n e') ∙ e
    | inr e' ↦ lower_bound n es j (moved e) (ground arith)
  ]
]
  where
    kept : any (fde_at n es).s_flags ≡ true → suc n ≤ j
    kept e = subst (λ m. m ≤ j) (opened e) h
      where
        opened : any (fde_at n es).s_flags ≡ true → lower (suc n) es ≡ suc n
        opened e = unfold lower in rw e refl

    moved : any (fde_at n es).s_flags ≡ false → lower n es ≤ j
    moved e = subst (λ m. m ≤ j) (opened e) h
      where
        opened : any (fde_at n es).s_flags ≡ false → lower (suc n) es ≡ lower n es
        opened e = unfold lower in rw e refl

-- The flags that `get_fde` finds are those of the table.
pub found_flags : (es : List Fdevent) (fd : ℕ) → flags_at (with_fde fd es) fd ≡ flags_at es fd
found_flags es fd = ap (λ (e : Fdevent). e.s_flags) (fde_at-with_fde fd es fd)

if_IsValid :
    (b : Bool) (x y : Bool × Fdevents) → IsValid x.1 → IsValid y.1 → IsValid (if b then x else y).1
if_IsValid true x y hx hy = hx
if_IsValid false x y hx hy = hy

higher : (n fd j : ℕ) → (if ltb n (fd + 1) then fd + 1 else n) ≤ j → (n ≤ j) × ((fd == j) ≡ false)
higher n fd j h = (ground arith, ground arith)

-- In the select form, `set` keeps the invariant: the read and write sets hold the descriptors
-- subscribed for input and for output, and `maxfd` is not below a descriptor with flags.
pub set_flags-IsValid :
    (fd : ℕ) (flags : Flags) (num : ℕ) (ptr : Option ℕ) (f : Fdevents)
    → IsValid f
    → IsValid (set_flags fd flags num ptr f).1
unfolding set_flags
set_flags-IsValid fd flags num ptr f v =
    let es = with_fde fd f.events in
    let fde = fde_at fd es in
    let w : Fdevent = record fde { s_flags = union fde.s_flags flags; num = num; ptr = ptr } in
    if_IsValid (ltb (fd_setsize - 1) fd) _ _ v (
      if_IsValid (meets fde.s_flags flags) _ _ (extended-IsValid f fd v) (record {
        reads = λ j.
            set_bit flags.for_in fd j f.readset fde.s_flags.for_in
              (v.reads fd ∙ ap (λ (s : Flags). s.for_in) (sym (found_flags f.events fd)))
            ∙ bit-set (λ s. s.for_in) f.events fd j w (f.readset j) (v.reads j);
        writes = λ j.
            set_bit flags.for_out fd j f.writeset fde.s_flags.for_out
              (v.writes fd ∙ ap (λ (s : Flags). s.for_out) (sym (found_flags f.events fd)))
            ∙ bit-set (λ s. s.for_out) f.events fd j w (f.writeset j) (v.writes j);
        bounded = λ j h.
            let (above, other) = higher f.watched fd j h in
            ap any (flags_at-set f.events fd j w)
            ∙ ap (λ c. any (if c then w.s_flags else flags_at f.events j)) other
            ∙ v.bounded j above;
      }))

-- Above `maxfd` there are no flags once an entry has lost some, and the loop finds the next below.
pub cleared_above :
    (f : Fdevents) (fd : ℕ) (w : Fdevent) (j : ℕ)
    → IsValid f
    → (any w.s_flags ≡ true → any (flags_at f.events fd) ≡ true)
    → f.watched ≤ j
    → any (flags_at (set (with_fde fd f.events) fd w) j) ≡ false
cleared_above f fd w j v less h =
    ap any (flags_at-set f.events fd j w) ∙ elim (Bool-cases (fd == j)) [
      | inr e ↦ ap (λ c. any (if c then w.s_flags else flags_at f.events j)) e ∙ v.bounded j h
      | inl e ↦
          ap (λ c. any (if c then w.s_flags else flags_at f.events j)) e
          ∙ none_left (any w.s_flags) less
              (ap (λ i. any (flags_at f.events i)) (==→eq fd j e) ∙ v.bounded j h)
    ]
  where
    none_left :
        (b : Bool)
        → (b ≡ true → any (flags_at f.events fd) ≡ true)
        → any (flags_at f.events fd) ≡ false
        → b ≡ false
    none_left false k p = refl
    none_left true k p = sym (k refl) ∙ p
