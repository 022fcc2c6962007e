-- ===== src/Fde/Sync.antt =====
-- Fdevents' flags and the kernel's interest list (fde_epoll.cpp): they agree after every call that
-- succeeds.
use expert_spoon.Prelude.{
  ℕ, ◌≡◌, ◌≢◌, refl, sym, ap, ◌∙◌, Bool, true, false, Option, none, some, List, arith, ◌==◌,
  if◌then◌else◌, set, get_or-set, inl, inr, Bool-cases, Option-cases,
}
use expert_spoon.Fde.Entries.{fde_at-with_fde, length-with_fde}
use expert_spoon.Fde.{
  Flags, no_flags, union, minus, any, meets, Fdevent, fresh, with_fde, fde_at, mask_of, Mask, Ctl,
  ctl_add, ctl_mod, ctl_del, entry_after, Epoll, Fdevents, control, set_flags, del, clr,
}

any-union : (a b : Flags) → any b ≡ true → any (union a b) ≡ true
any-union a b h = ground arith

-- What the kernel should hold for a descriptor with these flags.
abbrev pub expected : Flags → Option Mask
expected f = if any f then some (mask_of f) else none

abbrev pub flags_at : List Fdevent → ℕ → Flags
flags_at es j = (fde_at j es).s_flags

flags-if :
    (b : Bool) (v w : Fdevent) → (if b then v else w).s_flags ≡ (if b then v.s_flags else w.s_flags)
flags-if true v w = refl
flags-if false v w = refl

pub flags_at-set :
    (es : List Fdevent) (fd j : ℕ) (v : Fdevent)
    → flags_at (set (with_fde fd es) fd v) j ≡ (if fd == j then v.s_flags else flags_at es j)
flags_at-set es fd j v =
    ap (λ (e : Fdevent). e.s_flags)
      (get_or-set (with_fde fd es) fd j v (fresh j) (length-with_fde fd es))
    ∙ flags-if (fd == j) v (fde_at j (with_fde fd es))
    ∙ ap (λ (e : Fdevent). if fd == j then v.s_flags else e.s_flags) (fde_at-with_fde fd es j)

if_entry :
    (b : Bool) (x y : Option Mask) (f g : Flags)
    → x ≡ expected f
    → y ≡ expected g
    → (if b then x else y) ≡ expected (if b then f else g)
if_entry true x y f g hx hy = hx
if_entry false x y f g hx hy = hy

entry_wanted :
    (op : Ctl) (f : Flags) → op ≢ ctl_del → any f ≡ true → entry_after op (mask_of f) ≡ expected f
entry_wanted ctl_add f h a = rw a refl
entry_wanted ctl_mod f h a = rw a refl
entry_wanted ctl_del f h a = absurd (h refl)

entry_left : (f : Flags) → entry_after (if any f then ctl_mod else ctl_del) (mask_of f) ≡ expected f
entry_left f = elim (Bool-cases (any f)) [ inl e ↦ rw e refl | inr e ↦ rw e refl ]

add_or_mod : (b : Bool) → (if b then ctl_mod else ctl_add) ≢ ctl_del
add_or_mod true h = cc
add_or_mod false h = cc

module _ (k : Epoll) where
  -- The kernel watches a descriptor exactly if flags are subscribed for it, and for those.
  abbrev pub InSync : Fdevents k → Type 0
  InSync f = (j : ℕ) → k.registered f.interest j ≡ expected (flags_at f.events j)

  control-true :
      (op : Ctl) (fd : ℕ) (m : Mask) (f : Fdevents k)
      → (control k op fd m f).0 ≡ true
      → ((control k op fd m f).1.events ≡ f.events)
        × ((j : ℕ)
            → k.registered (control k op fd m f).1.interest j
              ≡ (if fd == j then entry_after op m else k.registered f.interest j))
  unfolding control
  control-true op fd m f h = elim (Option-cases (k.ctl f.interest op fd m)) [
    | inl e ↦ absurd (false_true (rw (e, control) at h))
    | inr (i, e) ↦ rw (e, control) (refl, k.registered-ctl f.interest op fd m i e)
  ]
    where
      false_true : false ≡ true → ⊥
      false_true p = cc

  extended-InSync :
      (f : Fdevents k) (fd : ℕ) → InSync f → InSync (record f { events = with_fde fd f.events })
  extended-InSync f fd sync j =
      sync j ∙ ap (λ (e : Fdevent). expected e.s_flags) (sym (fde_at-with_fde fd f.events j))

  -- A successful call that writes the flags of `v` at `fd` keeps the two in step, if what it leaves at
  -- `fd` is what these flags want.
  in_step :
      (f : Fdevents k) (fd : ℕ) (op : Ctl) (v : Fdevent)
      → InSync f
      → entry_after op (mask_of v.s_flags) ≡ expected v.s_flags
      → (let g : Fdevents k = record f { events = set (with_fde fd f.events) fd v } in
          (control k op fd (mask_of v.s_flags) g).0 ≡ true
          → InSync (control k op fd (mask_of v.s_flags) g).1)
  in_step f fd op v sync want h j =
      let g : Fdevents k = record f { events = set (with_fde fd f.events) fd v } in
      let (same, reg) = control-true op fd (mask_of v.s_flags) g h in
      reg j
      ∙ if_entry (fd == j) _ _ v.s_flags (flags_at f.events j) want (sync j)
      ∙ ap expected (sym (flags_at-set f.events fd j v))
      ∙ ap (λ es. expected (flags_at es j)) (sym same)

  if_success :
      (b : Bool) (x y : Bool × Fdevents k)
      → InSync x.1
      → (y.0 ≡ true → InSync y.1)
      → (if b then x else y).0 ≡ true
      → InSync (if b then x else y).1
  if_success true x y hx hy h = hx
  if_success false x y hx hy h = hy h

  -- A `set` with some flag that succeeds keeps the subscribed flags and the kernel's interest list
  -- in step.
  set_flags-InSync :
      (fd : ℕ) (flags : Flags) (num : ℕ) (ptr : Option ℕ) (f : Fdevents k)
      → any flags ≡ true
      → InSync f
      → (set_flags k fd flags num ptr f).0 ≡ true
      → InSync (set_flags k fd flags num ptr f).1
  unfolding set_flags
  set_flags-InSync fd flags num ptr f some_flag sync =
      let fde = fde_at fd (with_fde fd f.events) in
      let wanted = union fde.s_flags flags in
      let op = if any fde.s_flags then ctl_mod else ctl_add in
      let v : Fdevent = record fde { s_flags = wanted; num = num; ptr = ptr } in
      if_success (meets fde.s_flags flags) _ _ (extended-InSync f fd sync) (
        in_step f fd op v sync (
          entry_wanted op wanted (add_or_mod (any fde.s_flags))
            (any-union fde.s_flags flags some_flag)))

  -- A `clr` that succeeds keeps the subscribed flags and the kernel's interest list in step: a
  -- descriptor without flags is no longer watched.
  clr-InSync :
      (fd : ℕ) (flags : Flags) (f : Fdevents k)
      → InSync f
      → (clr k fd flags f).0 ≡ true
      → InSync (clr k fd flags f).1
  unfolding clr
  clr-InSync fd flags f sync h =
      let fde = fde_at fd (with_fde fd f.events) in
      let left = minus fde.s_flags flags in
      let op = if any left then ctl_mod else ctl_del in
      let v : Fdevent = record fde { s_flags = left } in
      clr_cases (meets fde.s_flags flags) _ _ (in_step f fd op v sync (entry_left left))
        (extended-InSync f fd sync) h
    where
      clr_cases :
          (b : Bool) (x y : Bool × Fdevents k)
          → (x.0 ≡ true → InSync x.1)
          → InSync y.1
          → (if b then x else y).0 ≡ true
          → InSync (if b then x else y).1
      clr_cases true x y hx hy e = hx e
      clr_cases false x y hx hy e = hy

  -- A `del` that succeeds keeps the subscribed flags and the kernel's interest list in step.
  del-InSync : (fd : ℕ) (f : Fdevents k) → InSync f → (del k fd f).0 ≡ true → InSync (del k fd f).1
  unfolding del
  del-InSync fd f sync =
      let r = control k ctl_del fd (mask_of no_flags) f in
      let v : Fdevent = record (fde_at fd (with_fde fd r.1.events)) { s_flags = no_flags } in
      elim (Bool-cases r.0) [
        | inl e ↦ rw e (
            let (same, reg) = control-true ctl_del fd (mask_of no_flags) f e in
            λ _ j.
              reg j
              ∙ if_entry (fd == j) none (k.registered f.interest j) no_flags (flags_at f.events j)
                  refl (sync j)
              ∙ ap (λ es. expected (if fd == j then no_flags else flags_at es j)) (sym same)
              ∙ ap expected (sym (flags_at-set r.1.events fd j v)))
        | inr e ↦ rw e (λ h. absurd (false_true h))
      ]
    where
      false_true : false ≡ true → ⊥
      false_true p = cc

  -- Calls in any order, each of which succeeds, and each `set` with some flag.
  pub data Run (f : Fdevents k) : Fdevents k → Type 0 where
    no_call : Run f f
    after_set :
        {g : Fdevents k} (fd : ℕ) (flags : Flags) (num : ℕ) (ptr : Option ℕ)
        → Run f g
        → any flags ≡ true
        → (set_flags k fd flags num ptr g).0 ≡ true
        → Run f (set_flags k fd flags num ptr g).1
    after_clr :
        {g : Fdevents k} (fd : ℕ) (flags : Flags)
        → Run f g
        → (clr k fd flags g).0 ≡ true
        → Run f (clr k fd flags g).1
    after_del : {g : Fdevents k} (fd : ℕ) → Run f g → (del k fd g).0 ≡ true → Run f (del k fd g).1

  -- After calls of `set`, `clr` and `del` in any order, each of which succeeds and each `set` with
  -- some flag, the kernel watches a descriptor exactly if flags are subscribed for it, and for
  -- those, if it did so before.
  pub Run-InSync : {f g : Fdevents k} → Run f g → InSync f → InSync g
  Run-InSync no_call sync = sync
  Run-InSync (after_set fd flags num ptr run some_flag done) sync =
      set_flags-InSync fd flags num ptr _ some_flag (Run-InSync run sync) done
  Run-InSync (after_clr fd flags run done) sync = clr-InSync fd flags _ (Run-InSync run sync) done
  Run-InSync (after_del fd run done) sync = del-InSync fd _ (Run-InSync run sync) done
