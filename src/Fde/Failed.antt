-- ===== src/Fde/Failed.antt =====
-- A `set` that fails (fde_epoll.cpp) is not made up for by calling it again.
use expert_spoon.Prelude.{
  ℕ, ◌≡◌, refl, sym, ap, ◌∙◌, Bool, true, false, Option, arith, ==_refl, if◌then◌else◌, set, inl,
  inr, Option-cases,
}
use expert_spoon.Fde.Entries.{fde_at-with_fde}
use expert_spoon.Fde.{
  Flags, union, any, meets, Fdevent, with_fde, fde_at, Mask, Ctl, Epoll, Fdevents, control,
  set_flags,
}
use expert_spoon.Fde.Sync.{flags_at, flags_at-set}

meets-union : (a b : Flags) → any b ≡ true → meets (union a b) b ≡ true
meets-union a b h = ground arith

module _ (k : Epoll) where
  control-false :
      (op : Ctl) (fd : ℕ) (m : Mask) (f : Fdevents k)
      → (control k op fd m f).0 ≡ false
      → control k op fd m f ≡ (false, f)
  unfolding control
  control-false op fd m f h = elim (Option-cases (k.ctl f.interest op fd m)) [
    | inl e ↦ rw (e, control) refl
    | inr (i, e) ↦ absurd (true_false (rw (e, control) at h))
  ]
    where
      true_false : true ≡ false → ⊥
      true_false p = cc

  -- The table after a `set` that subscribes.
  subscribed : ℕ → Flags → ℕ → Option ℕ → Fdevents k → Fdevents k
  subscribed fd flags num ptr f =
      let fde = fde_at fd (with_fde fd f.events) in
      let v : Fdevent = record fde { s_flags = union fde.s_flags flags; num = num; ptr = ptr } in
      record f { events = set (with_fde fd f.events) fd v }

  set_failed :
      (fd : ℕ) (flags : Flags) (num : ℕ) (ptr : Option ℕ) (f : Fdevents k)
      → (set_flags k fd flags num ptr f).0 ≡ false
      → set_flags k fd flags num ptr f ≡ (false, subscribed fd flags num ptr f)
  unfolding set_flags subscribed
  set_failed fd flags num ptr f =
      failed_branch (meets (fde_at fd (with_fde fd f.events)).s_flags flags) _ _ _ refl
        (control-false _ fd _ (subscribed fd flags num ptr f))
    where
      failed_branch :
          (b : Bool) (x y z : Bool × Fdevents k)
          → x.0 ≡ true
          → (y.0 ≡ false → y ≡ z)
          → (if b then x else y).0 ≡ false
          → (if b then x else y) ≡ z
      failed_branch true x y z hx hy h = absurd (true_false (sym hx ∙ h))
        where
          true_false : true ≡ false → ⊥
          true_false p = cc
      failed_branch false x y z hx hy h = hy h

  set_subscribed :
      (fd : ℕ) (flags : Flags) (num : ℕ) (ptr : Option ℕ) (f : Fdevents k)
      → meets (flags_at (with_fde fd f.events) fd) flags ≡ true
      → set_flags k fd flags num ptr f ≡ (true, record f { events = with_fde fd f.events })
  unfolding set_flags
  set_subscribed fd flags num ptr f h = rw (h, set_flags) refl

  subscribed-meets :
      (fd : ℕ) (flags : Flags) (num : ℕ) (ptr : Option ℕ) (f : Fdevents k)
      → any flags ≡ true
      → meets (flags_at (with_fde fd (subscribed fd flags num ptr f).events) fd) flags ≡ true
  unfolding subscribed
  subscribed-meets fd flags num ptr f h =
      let fde = fde_at fd (with_fde fd f.events) in
      let v : Fdevent = record fde { s_flags = union fde.s_flags flags; num = num; ptr = ptr } in
      let es = set (with_fde fd f.events) fd v in
      ap (λ (e : Fdevent). meets e.s_flags flags) (fde_at-with_fde fd es fd)
      ∙ ap (λ s. meets s flags) (flags_at-set f.events fd fd v)
      ∙ ap (λ b. meets (if b then v.s_flags else flags_at f.events fd) flags) (==_refl fd)
      ∙ meets-union fde.s_flags flags h

  -- A `set` with some flag that fails leaves the kernel's list unchanged and subscribes the flags
  -- all the same: the same `set` called again returns 0 without asking the kernel.
  pub set_flags_again :
      (fd : ℕ) (flags : Flags) (num : ℕ) (ptr : Option ℕ) (f : Fdevents k)
      → any flags ≡ true
      → (set_flags k fd flags num ptr f).0 ≡ false
      → ((set_flags k fd flags num ptr f).1.interest ≡ f.interest)
        × (let g = (set_flags k fd flags num ptr f).1 in
            set_flags k fd flags num ptr g ≡ (true, record g { events = with_fde fd g.events }))
  set_flags_again fd flags num ptr f some_flag h = rw (set_failed fd flags num ptr f h) (
    unfold subscribed in refl,
    set_subscribed fd flags num ptr (subscribed fd flags num ptr f)
        (subscribed-meets fd flags num ptr f some_flag),
  )
