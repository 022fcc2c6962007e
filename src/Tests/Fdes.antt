-- ===== src/Tests/Fdes.antt =====
-- class Fdevents over an interest list kept as a function, which refuses descriptor 9.
use expert_spoon.Prelude.{
  ℕ, ◌≡◌, refl, Bool, true, false, Option, none, some, [], ◌==◌, if◌then◌else◌,
}
use expert_spoon.Fde.{
  Mask, Ctl, entry_after, Epoll, Fdevents, in_flag, set_flags, clr, del, with_fde, control,
}
use expert_spoon.Fde.Sync.{InSync, Run-InSync, no_call, after_set, after_clr, after_del}
use expert_spoon.Fde.Failed.{set_flags_again}

abbrev pub Interest : Type 0
Interest = ℕ → Option Mask

abbrev pub changed : Interest → Ctl → ℕ → Mask → Interest
changed i op fd m j = if fd == j then entry_after op m else i j

abbrev pub ctl_of : Interest → Ctl → ℕ → Mask → Option Interest
ctl_of i op fd m = if fd == 9 then none else some (changed i op fd m)

pub registered-ctl_of :
    (i : Interest) (op : Ctl) (fd : ℕ) (m : Mask) (next : Interest)
    → ctl_of i op fd m ≡ some next
    → (j : ℕ) → next j ≡ changed i op fd m j
registered-ctl_of i op fd m next h j = refused (fd == 9) (changed i op fd m) h
  where
    refused : (b : Bool) (x : Interest) → (if b then none else some x) ≡ some next → next j ≡ x j
    refused true x e = cc
    refused false x e = cc

abbrev pub epoll : Epoll
epoll = record {
  Interest = Interest;
  registered = λ i j. i j;
  ctl = ctl_of;
  registered-ctl = registered-ctl_of;
}

abbrev pub nothing_watched : Fdevents epoll
nothing_watched = record { events = []; interest = λ j. none }

abbrev watching : Fdevents epoll
watching = (set_flags epoll 2 in_flag 1 (some 7) nothing_watched).1

set_runs : (set_flags epoll 2 in_flag 1 (some 7) nothing_watched).0 ≡ true
unfolding set_flags control with_fde
set_runs = refl

nothing-InSync : InSync epoll nothing_watched
nothing-InSync j = refl

clr_runs : (clr epoll 2 in_flag watching).0 ≡ true
unfolding clr control set_flags with_fde
clr_runs = refl

abbrev idle : Fdevents epoll
idle = (clr epoll 2 in_flag watching).1

del_runs : (del epoll 2 idle).0 ≡ true
unfolding del control clr set_flags with_fde
del_runs = refl

-- Subscribed, cleared and deleted.
Run-InSync_example : InSync epoll (del epoll 2 idle).1
Run-InSync_example =
    Run-InSync epoll
      (after_del 2
        (after_clr 2 in_flag (after_set 2 in_flag 1 (some 7) no_call refl set_runs) clr_runs)
        del_runs)
      nothing-InSync

refused_runs : (set_flags epoll 9 in_flag 1 (some 7) nothing_watched).0 ≡ false
unfolding set_flags control with_fde
refused_runs = refl

set_flags_again_example :
    ((set_flags epoll 9 in_flag 1 (some 7) nothing_watched).1.interest ≡ nothing_watched.interest)
    × (let g = (set_flags epoll 9 in_flag 1 (some 7) nothing_watched).1 in
        set_flags epoll 9 in_flag 1 (some 7) g ≡ (true, record g { events = with_fde 9 g.events }))
set_flags_again_example =
    set_flags_again epoll 9 in_flag 1 (some 7) nothing_watched refl refused_runs
