-- ===== src/Tests/Selects.antt =====
-- The select form of Fdevents with a few descriptors.
use expert_spoon.Prelude.{ℕ, zero, suc, ◌≡◌, refl, false, none, some, [], ◌∷◌, ◌==◌}
use expert_spoon.Fde.{in_flag, out_flag, any, fresh, with_fde}
use expert_spoon.Fde.Sync.{flags_at}
use expert_spoon.Fde.Select.{Fdevents, set_flags, del, clr, lower, lower_unbounded, fd_clr}
use expert_spoon.Fde.Select.Bound.{IsValid}
use expert_spoon.Fde.Select.Clear.{
  clr-leaves, Run-IsValid, no_call, after_set, after_clr, after_del,
}

abbrev nothing_selected : Fdevents
nothing_selected = record { events = []; watched = 0; readset = λ j. false; writeset = λ j. false }

nothing-IsValid : IsValid nothing_selected
nothing-IsValid = record { reads = λ j. refl; writes = λ j. refl; bounded = λ j h. refl }

abbrev one_selected : Fdevents
one_selected = (set_flags 2 in_flag 1 (some 7) nothing_selected).1

-- Descriptor 2 watched for input, then not watched.
abbrev read_two : Fdevents
read_two = record {
  events = fresh 0 ∷ fresh 1 ∷ record (fresh 2) { s_flags = in_flag } ∷ fresh 3 ∷ [];
  watched = 3;
  readset = λ j. 2 == j;
  writeset = λ j. false;
}

others : (j : ℕ) → (2 == j) ≡ false → any (flags_at read_two.events j) ≡ false
others zero h = refl
others (suc zero) h = refl
others (suc (suc zero)) h = cc
others (suc (suc (suc zero))) h = refl
others (suc (suc (suc (suc j)))) h = refl

clr-leaves_example : clr 2 in_flag read_two ≡ none
clr-leaves_example = clr-leaves 2 in_flag read_two refl refl others

-- Descriptor 0 watched as well, so that the loop of `clr` ends at it.
abbrev and_zero : Fdevents
and_zero = (set_flags 0 in_flag 1 (some 8) one_selected).1

abbrev only_zero : Fdevents
only_zero = record {
  events =
      record (fresh 0) { s_flags = in_flag; num = 1; ptr = some 8 }
      ∷ fresh 1
      ∷ record (fresh 2) { num = 1; ptr = some 7 }
      ∷ [];
  watched = 1;
  readset = fd_clr 2 and_zero.readset;
  writeset = and_zero.writeset;
}

clr_runs : clr 2 in_flag and_zero ≡ some only_zero
unfolding clr set_flags with_fde lower_unbounded
clr_runs = refl

-- Output is subscribed behind it, and the descriptor is deleted.
abbrev and_output : Fdevents
and_output = (set_flags 0 out_flag 1 (some 8) only_zero).1

abbrev deleted : Fdevents
deleted = record {
  events =
      record (fresh 0) { num = 1; ptr = some 8 }
      ∷ fresh 1
      ∷ record (fresh 2) { num = 1; ptr = some 7 }
      ∷ [];
  watched = 0;
  readset = fd_clr 0 and_output.readset;
  writeset = fd_clr 0 and_output.writeset;
}

del_runs : del 0 and_output ≡ some deleted
unfolding del clr set_flags with_fde lower
del_runs = refl

Run-IsValid_example : IsValid deleted
Run-IsValid_example =
    Run-IsValid
      (after_del 0
        (after_set 0 out_flag 1 (some 8) (
          after_clr 2 in_flag
            (after_set 0 in_flag 1 (some 8) (after_set 2 in_flag 1 (some 7) no_call)) clr_runs))
        del_runs)
      nothing-IsValid
