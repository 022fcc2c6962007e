-- ===== src/Fde/Select.antt =====
-- server-5204/fde_select.cpp: class Fdevents in the form that uses select(2). A set of descriptors is a
-- function, and `watched` is `maxfd + 1`.
pub mod Bound
pub mod Clear
use expert_spoon.Prelude.{
  ℕ, zero, suc, ◌+◌, ◌-◌, Bool, true, false, not, ◌&&◌, ◌||◌, Option, none, some, List, [], ◌∷◌,
  ltb, leb, ◌==◌, if◌then◌else◌, length, get_or, set,
}
use expert_spoon.Fde.{Flags, no_flags, union, minus, any, meets, Fdevent, with_fde, fde_at}

abbrev pub FdSet : Type 0
FdSet = ℕ → Bool

-- FD_SET and FD_CLR
abbrev pub fd_set : ℕ → FdSet → FdSet
fd_set fd s j = if fd == j then true else s j

abbrev pub fd_clr : ℕ → FdSet → FdSet
fd_clr fd s j = if fd == j then false else s j

-- FD_SETSIZE
abbrev pub fd_setsize : ℕ
fd_setsize = 1024

pub record Fdevents : Type 0 where
  pub events : List Fdevent
  pub watched : ℕ
  pub readset : FdSet
  pub writeset : FdSet

unfoldable pub set_flags : ℕ → Flags → ℕ → Option ℕ → Fdevents → Bool × Fdevents
set_flags fd flags num ptr f =
    let es = with_fde fd f.events in
    let fde = fde_at fd es in
    if ltb (fd_setsize - 1) fd
    then (false, f)
    else if meets fde.s_flags flags
    then (true, record f { events = es })
    else (
      true,
      record {
        events = set es fd (record fde { s_flags = union fde.s_flags flags; num = num; ptr = ptr });
        watched = if ltb f.watched (fd + 1) then fd + 1 else f.watched;
        readset = if flags.for_in then fd_set fd f.readset else f.readset;
        writeset = if flags.for_out then fd_set fd f.writeset else f.writeset;
      },
    )

-- while(maxfd >= 0 && events[maxfd]->s_flags == 0) maxfd--;
unfoldable pub lower : ℕ → List Fdevent → ℕ
lower zero es = zero
lower (suc maxfd) es =
    let rest = lower maxfd es in if any (fde_at maxfd es).s_flags then suc maxfd else rest

-- FD_CLR of a descriptor from FD_SETSIZE on writes outside the set: `none`. (`set` has refused it, so `clr`
-- finds no flag there.)
unfoldable pub del : ℕ → Fdevents → Option Fdevents
del fd f =
    let es = with_fde fd f.events in
    let cleared = set es fd (record (fde_at fd es) { s_flags = no_flags }) in
    if ltb (fd_setsize - 1) fd
    then none
    else some (record {
      events = cleared;
      watched = lower f.watched cleared;
      readset = fd_clr fd f.readset;
      writeset = fd_clr fd f.writeset;
    })

-- while(events[maxfd]->s_flags == 0) maxfd--; which reads before the first entry (`none`) where no entry
-- has a flag
unfoldable pub lower_unbounded : ℕ → List Fdevent → Option ℕ
lower_unbounded zero es = none
lower_unbounded (suc maxfd) es =
    let rest = lower_unbounded maxfd es in
    if any (fde_at maxfd es).s_flags then some (suc maxfd) else rest

-- `none` where the loop leaves the vector.
unfoldable pub clr : ℕ → Flags → Fdevents → Option Fdevents
clr fd flags f =
    let es = with_fde fd f.events in
    let fde = fde_at fd es in
    let cleared = set es fd (record fde { s_flags = minus fde.s_flags flags }) in
    if meets fde.s_flags flags
    then elim (lower_unbounded f.watched cleared) [
      | none ↦ none
      | some n ↦ some (record {
        events = cleared;
        watched = n;
        readset = if flags.for_in then fd_clr fd f.readset else f.readset;
        writeset = if flags.for_out then fd_clr fd f.writeset else f.writeset;
      })
    ]
    else some (record f { events = es })

-- What `::select` answers: EINTR, another error, or the sets of ready descriptors with their number.
pub data Selected : Type 0 where
  select_interrupted : Selected
  select_failed : Selected
  selected : ℕ → FdSet → FdSet → Selected

abbrev pub ready_flags : FdSet → FdSet → ℕ → Flags
ready_flags reads writes i = record no_flags { for_in = reads i; for_out = writes i }

-- for(i = 0; i <= maxfd && ready_events.size() < ret; i++), with the rounds left, `i`, and what may still
-- be found
unfoldable pub collect : ℕ → ℕ → ℕ → FdSet → FdSet → List Fdevent → List ℕ × List Fdevent
collect zero i left reads writes es = ([], es)
collect (suc rounds) i zero reads writes es = ([], es)
collect (suc rounds) i (suc left) reads writes es =
    let flags = ready_flags reads writes i in
    let marked = set es i (record (fde_at i es) { events = flags }) in
    let hit = collect rounds (i + 1) left reads writes marked in
    let miss = collect rounds (i + 1) (suc left) reads writes marked in
    if any flags then (i ∷ hit.0, hit.1) else miss

unfoldable pub wait : Selected → Fdevents → Option (List ℕ) × Fdevents
wait select_interrupted f = (some [], f)
wait select_failed f = (none, f)
wait (selected ret reads writes) f =
    let (fds, es) = collect f.watched 0 ret reads writes f.events in
    (some fds, record f { events = es })
