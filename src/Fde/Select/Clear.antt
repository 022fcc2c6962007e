-- ===== src/Fde/Select/Clear.antt =====
-- `del` and `clr` in the select form of Fdevents (server-5204/fde_select.cpp), and the loop of `clr` that
-- has no lower bound.
use expert_spoon.Prelude.{
  ℕ, zero, suc, Option, ◌≤◌, ◌≡◌, refl, sym, ap, subst, ◌∙◌, ◌⊎◌, true, false, none, some, List,
  arith, ltb, ◌-◌, ltb→lt, ltb→le, ◌==◌, if◌then◌else◌, set, inl, inr, Bool-cases, Option-cases,
}
use expert_spoon.Fde.{Flags, no_flags, minus, any, meets, Fdevent, with_fde, fde_at}
use expert_spoon.Fde.Sync.{flags_at, flags_at-set}
use expert_spoon.Fde.Select.{
  fd_setsize, fd_clr, Fdevents, set_flags, lower, del, lower_unbounded, clr,
}
use expert_spoon.Fde.Select.Bound.{
  IsValid, set_flags-IsValid, lower_bound, cleared_above, clr_bit, bit-set, found_flags,
  extended-IsValid,
}

any-minus : (a b : Flags) → any (minus a b) ≡ true → any a ≡ true
any-minus a b h = ground arith

-- What a loop over the entries leaves as the bound.
lowered :
    (f : Fdevents) (fd : ℕ) (w : Fdevent) (j : ℕ)
    → IsValid f
    → (any w.s_flags ≡ true → any (flags_at f.events fd) ≡ true)
    → lower f.watched (set (with_fde fd f.events) fd w) ≤ j
    → any (flags_at (set (with_fde fd f.events) fd w) j) ≡ false
lowered f fd w j v less h = elim (Bool-cases (ltb j f.watched)) [
  | inl e ↦ lower_bound f.watched (set (with_fde fd f.events) fd w) j h (ltb→lt j f.watched e)
  | inr e ↦ cleared_above f fd w j v less (ltb→le j f.watched e)
]

cleared_set : ℕ → Fdevents → Fdevents
cleared_set fd f =
    let cleared =
      set (with_fde fd f.events) fd
        (record (fde_at fd (with_fde fd f.events)) { s_flags = no_flags }) in
    record {
      events = cleared;
      watched = lower f.watched cleared;
      readset = fd_clr fd f.readset;
      writeset = fd_clr fd f.writeset;
    }

cleared_set-IsValid : (fd : ℕ) (f : Fdevents) → IsValid f → IsValid (cleared_set fd f)
unfolding cleared_set
cleared_set-IsValid fd f v =
    let w : Fdevent = record (fde_at fd (with_fde fd f.events)) { s_flags = no_flags } in
    record {
      reads = λ j. bit-set (λ s. s.for_in) f.events fd j w (f.readset j) (v.reads j);
      writes = λ j. bit-set (λ s. s.for_out) f.events fd j w (f.writeset j) (v.writes j);
      bounded = λ j h. lowered f fd w j v (λ e. absurd (not_flags e)) h;
    }
  where
    not_flags : false ≡ true → ⊥
    not_flags e = cc

some_fdevents : {x y : Fdevents} → some x ≡ some y → x ≡ y
some_fdevents p = cc

no_fdevents : {x : Fdevents} → none ≡ some x → ⊥
no_fdevents p = cc

del-IsValid : (fd : ℕ) (f g : Fdevents) → IsValid f → del fd f ≡ some g → IsValid g
unfolding del cleared_set
del-IsValid fd f g v h = elim (Bool-cases (ltb (fd_setsize - 1) fd)) [
  | inl e ↦ absurd (no_fdevents (rw e at h))
  | inr e ↦ subst IsValid (some_fdevents (rw e at h)) (cleared_set-IsValid fd f v)
]

lower_unbounded-some :
    (m n : ℕ) (es : List Fdevent) → lower_unbounded m es ≡ some n → lower m es ≡ n
unfolding lower lower_unbounded
lower_unbounded-some zero n es h = absurd (no_bound h)
  where
    no_bound : none ≡ some n → ⊥
    no_bound p = cc
lower_unbounded-some (suc m) n es h = elim (Bool-cases (any (fde_at m es).s_flags)) [
  | inl e ↦ rw e (same (rw e at h))
  | inr e ↦ rw e (lower_unbounded-some m n es (rw e at h))
]
  where
    same : some (suc m) ≡ some n → suc m ≡ n
    same p = cc

lower_unbounded-none :
    (m : ℕ) (es : List Fdevent)
    → ((j : ℕ) → any (flags_at es j) ≡ false)
    → lower_unbounded m es ≡ none
unfolding lower_unbounded
lower_unbounded-none zero es h = refl
lower_unbounded-none (suc m) es h = rw (h m) (lower_unbounded-none m es h)

-- The table after `clr` took its flags from the entry.
cleared : ℕ → Flags → Fdevents → List Fdevent
cleared fd flags f =
    let fde = fde_at fd (with_fde fd f.events) in
    set (with_fde fd f.events) fd (record fde { s_flags = minus fde.s_flags flags })

clr_met :
    (fd : ℕ) (flags : Flags) (f : Fdevents)
    → meets (flags_at (with_fde fd f.events) fd) flags ≡ true
    → (clr fd flags f ≡ none)
      ⊎ ((n : ℕ) × (lower_unbounded f.watched (cleared fd flags f) ≡ some n)
          × (clr fd flags f
              ≡ some (record {
                events = cleared fd flags f;
                watched = n;
                readset = if flags.for_in then fd_clr fd f.readset else f.readset;
                writeset = if flags.for_out then fd_clr fd f.writeset else f.writeset;
              })))
unfolding clr cleared
clr_met fd flags f m = elim (Option-cases (lower_unbounded f.watched (cleared fd flags f))) [
  | inl e ↦ inl (rw (m, e, clr) refl)
  | inr (n, e) ↦ inr (n, e, rw (m, e, clr) refl)
]

clr_unmet :
    (fd : ℕ) (flags : Flags) (f : Fdevents)
    → meets (flags_at (with_fde fd f.events) fd) flags ≡ false
    → clr fd flags f ≡ some (record f { events = with_fde fd f.events })
unfolding clr
clr_unmet fd flags f m = rw (m, clr) refl

-- In the select form, `clr` keeps the invariant of the sets and of `maxfd` where its loop ends
-- inside the vector.
clr-IsValid :
    (fd : ℕ) (flags : Flags) (f g : Fdevents) → IsValid f → clr fd flags f ≡ some g → IsValid g
clr-IsValid fd flags f g v h =
    elim (Bool-cases (meets (flags_at (with_fde fd f.events) fd) flags)) [
      | inr m ↦
          subst IsValid (some_fdevents (sym (clr_unmet fd flags f m) ∙ h)) (extended-IsValid f fd v)
      | inl m ↦ elim (clr_met fd flags f m) [
        | inl e ↦ absurd (no_fdevents (sym e ∙ h))
        | inr (n, e, r) ↦ subst IsValid (some_fdevents (sym r ∙ h)) (kept n e)
      ]
    ]
  where
    kept :
        (n : ℕ)
        → lower_unbounded f.watched (cleared fd flags f) ≡ some n
        → IsValid (record {
          events = cleared fd flags f;
          watched = n;
          readset = if flags.for_in then fd_clr fd f.readset else f.readset;
          writeset = if flags.for_out then fd_clr fd f.writeset else f.writeset;
        })
    kept n e =
        unfold cleared in
        (let fde = fde_at fd (with_fde fd f.events) in
          let w : Fdevent = record fde { s_flags = minus fde.s_flags flags } in
          let n_eq = lower_unbounded-some f.watched n (cleared fd flags f) e in
          record {
            reads = λ j.
                clr_bit flags.for_in fd j f.readset fde.s_flags.for_in
                  (v.reads fd ∙ ap (λ (s : Flags). s.for_in) (sym (found_flags f.events fd)))
                ∙ bit-set (λ s. s.for_in) f.events fd j w (f.readset j) (v.reads j);
            writes = λ j.
                clr_bit flags.for_out fd j f.writeset fde.s_flags.for_out
                  (v.writes fd ∙ ap (λ (s : Flags). s.for_out) (sym (found_flags f.events fd)))
                ∙ bit-set (λ s. s.for_out) f.events fd j w (f.writeset j) (v.writes j);
            bounded = λ j h.
                lowered f fd w j v
                  (λ a. ap any (sym (found_flags f.events fd)) ∙ any-minus fde.s_flags flags a)
                  (subst (λ k. k ≤ j) (sym n_eq) h);
          })

-- In the select form, a `clr` that takes the last flag of the only descriptor with flags makes the
-- loop over `maxfd` read before the vector's first entry.
pub clr-leaves :
    (fd : ℕ) (flags : Flags) (f : Fdevents)
    → meets (flags_at f.events fd) flags ≡ true
    → any (minus (flags_at f.events fd) flags) ≡ false
    → ((j : ℕ) → (fd == j) ≡ false → any (flags_at f.events j) ≡ false)
    → clr fd flags f ≡ none
clr-leaves fd flags f m gone others =
    elim (clr_met fd flags f (ap (λ s. meets s flags) (found_flags f.events fd) ∙ m)) [
      | inl e ↦ e
      | inr (n, e, r) ↦
          absurd
            (no_bound n (sym (lower_unbounded-none f.watched (cleared fd flags f) all_clear) ∙ e))
    ]
  where
    no_bound : (n : ℕ) → none ≡ some n → ⊥
    no_bound n p = cc

    all_clear : (j : ℕ) → any (flags_at (cleared fd flags f) j) ≡ false
    all_clear j =
        unfold cleared in
        (let fde = fde_at fd (with_fde fd f.events) in
          let w : Fdevent = record fde { s_flags = minus fde.s_flags flags } in
          ap any (flags_at-set f.events fd j w) ∙ elim (Bool-cases (fd == j)) [
            | inr e ↦ ap (λ c. any (if c then w.s_flags else flags_at f.events j)) e ∙ others j e
            | inl e ↦
                ap (λ c. any (if c then w.s_flags else flags_at f.events j)) e
                ∙ ap (λ s. any (minus s flags)) (found_flags f.events fd)
                ∙ gone
          ])

-- Calls in any order, each `clr` with a loop that ends inside the vector and each `del` inside the set.
pub data Run (f : Fdevents) : Fdevents → Type 0 where
  no_call : Run f f
  after_set :
      {g : Fdevents} (fd : ℕ) (flags : Flags) (num : ℕ) (ptr : Option ℕ)
      → Run f g
      → Run f (set_flags fd flags num ptr g).1
  after_clr :
      {g h : Fdevents} (fd : ℕ) (flags : Flags) → Run f g → clr fd flags g ≡ some h → Run f h
  after_del : {g h : Fdevents} (fd : ℕ) → Run f g → del fd g ≡ some h → Run f h

-- In the select form, after calls of `set`, `clr` and `del` in any order, each `clr` with a loop
-- that ends inside the vector and each `del` of a descriptor below FD_SETSIZE, the read and write
-- sets hold the descriptors subscribed for input and for output, and `maxfd` is not below a
-- descriptor with flags, if it was so before.
pub Run-IsValid : {f g : Fdevents} → Run f g → IsValid f → IsValid g
Run-IsValid no_call v = v
Run-IsValid (after_set fd flags num ptr run) v =
    set_flags-IsValid fd flags num ptr _ (Run-IsValid run v)
Run-IsValid (after_clr fd flags run ends) v = clr-IsValid fd flags _ _ (Run-IsValid run v) ends
Run-IsValid (after_del fd run inside) v = del-IsValid fd _ _ (Run-IsValid run v) inside
