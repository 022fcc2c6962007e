-- ===== src/Fde.antt =====
-- server-5204/fde.h, fde.cpp and fde_epoll.cpp: class Fdevents, the table of watched descriptors, in
-- its epoll form. `epoll_ctl` and `epoll_wait` are the kernel's: an `Epoll`. The subscribed flags are
-- the five bits of `s_flags` as Booleans, and a data pointer is a number.
pub mod Entries
pub mod Sync
pub mod Failed
pub mod Select
use expert_spoon.Prelude.{
  ℕ, zero, suc, ◌+◌, ◌-◌, ◌≤◌, ◌<◌, ◌≡◌, Bool, true, false, not, ◌&&◌, ◌||◌, Option, none, some,
  List, [], ◌∷◌, ◌++◌, ltb, ◌==◌, if◌then◌else◌, length, get_or, set,
}

pub record Flags : Type 0 where
  pub for_in : Bool
  pub for_pri : Bool
  pub for_out : Bool
  pub for_hup : Bool
  pub for_err : Bool

-- FDEVENT_NONE, FDEVENT_IN, FDEVENT_OUT, FDEVENT_ERR
abbrev pub no_flags : Flags
no_flags = record {
  for_in = false;
  for_pri = false;
  for_out = false;
  for_hup = false;
  for_err = false;
}

abbrev pub in_flag : Flags
in_flag = record no_flags { for_in = true }

abbrev pub out_flag : Flags
out_flag = record no_flags { for_out = true }

abbrev pub err_flag : Flags
err_flag = record no_flags { for_err = true }

-- a | b
abbrev pub union : Flags → Flags → Flags
union a b = record {
  for_in = a.for_in || b.for_in;
  for_pri = a.for_pri || b.for_pri;
  for_out = a.for_out || b.for_out;
  for_hup = a.for_hup || b.for_hup;
  for_err = a.for_err || b.for_err;
}

-- a & ~b
abbrev pub minus : Flags → Flags → Flags
minus a b = record {
  for_in = a.for_in && not b.for_in;
  for_pri = a.for_pri && not b.for_pri;
  for_out = a.for_out && not b.for_out;
  for_hup = a.for_hup && not b.for_hup;
  for_err = a.for_err && not b.for_err;
}

-- a != 0
abbrev pub any : Flags → Bool
any a = a.for_in || (a.for_pri || (a.for_out || (a.for_hup || a.for_err)))

-- (a & b) != 0
abbrev pub meets : Flags → Flags → Bool
meets a b =
    (a.for_in && b.for_in)
    || ((a.for_pri && b.for_pri)
        || ((a.for_out && b.for_out) || ((a.for_hup && b.for_hup) || (a.for_err && b.for_err))))

pub record Fdevent : Type 0 where
  pub fd : ℕ
  pub s_flags : Flags
  pub events : Flags
  pub num : ℕ
  pub ptr : Option ℕ

-- The entry that `get_fde` makes for a descriptor. (`events` is set before it is read.)
abbrev pub fresh : ℕ → Fdevent
fresh n = record { fd = n; s_flags = no_flags; events = no_flags; num = 0; ptr = none }

-- while(events.size() <= fd) push_back(...), with the rounds counted down
unfoldable pub extend : ℕ → List Fdevent → List Fdevent
extend zero es = es
extend (suc rounds) es = extend rounds (es ++ fresh (length es) ∷ [])

unfoldable pub with_fde : ℕ → List Fdevent → List Fdevent
unfolding extend
with_fde fd es = extend (fd + 1 - length es) es

-- events[fd] after `get_fde(fd)`
abbrev pub fde_at : ℕ → List Fdevent → Fdevent
fde_at fd es = get_or es fd (fresh fd)

-- The mask given to the kernel: EPOLLIN and EPOLLOUT.
pub record Mask : Type 0 where
  pub epoll_in : Bool
  pub epoll_out : Bool

abbrev pub mask_of : Flags → Mask
mask_of f = record { epoll_in = f.for_in; epoll_out = f.for_out }

pub data Ctl : Type 0 where
  ctl_add ctl_mod ctl_del : Ctl

-- What a successful `epoll_ctl` leaves at its descriptor.
abbrev pub entry_after : Ctl → Mask → Option Mask
entry_after ctl_del m = none
entry_after _ m = some m

-- The kernel's interest list. A call may fail (`none`, which is -1); where it succeeds, it changes the
-- entry of its descriptor and no other.
pub record Epoll : Type 1 where
  pub Interest : Type 0
  pub registered : Interest → ℕ → Option Mask
  pub ctl : Interest → Ctl → ℕ → Mask → Option Interest
  pub registered-ctl :
      (i : Interest) (op : Ctl) (fd : ℕ) (m : Mask) (next : Interest)
      → ctl i op fd m ≡ some next
      → (j : ℕ) → registered next j ≡ (if fd == j then entry_after op m else registered i j)

module _ (k : Epoll) where
  pub record Fdevents : Type 0 where
    pub events : List Fdevent
    pub interest : k.Interest

  unfoldable pub isset : ℕ → Flags → Fdevents → Bool × Fdevents
  isset fd flag f =
      let es = with_fde fd f.events in (meets (fde_at fd es).s_flags flag, record f { events = es })

  -- epoll_ctl: 0 (true) or -1
  unfoldable pub control : Ctl → ℕ → Mask → Fdevents → Bool × Fdevents
  control op fd m f = elim (k.ctl f.interest op fd m) [
    | none ↦ (false, f)
    | some i ↦ (true, record f { interest = i })
  ]

  unfoldable pub set_flags : ℕ → Flags → ℕ → Option ℕ → Fdevents → Bool × Fdevents
  set_flags fd flags num ptr f =
      let es = with_fde fd f.events in
      let fde = fde_at fd es in
      let wanted = union fde.s_flags flags in
      let op = if any fde.s_flags then ctl_mod else ctl_add in
      if meets fde.s_flags flags
      then (true, record f { events = es })
      else control op fd (mask_of wanted)
          (record f { events = set es fd (record fde { s_flags = wanted; num = num; ptr = ptr }) })

  unfoldable pub del : ℕ → Fdevents → Bool × Fdevents
  del fd f =
      let (done, g) = control ctl_del fd (mask_of no_flags) f in
      let es = with_fde fd g.events in
      if done
      then (true, record g { events = set es fd (record (fde_at fd es) { s_flags = no_flags }) })
      else (false, g)

  unfoldable pub clr : ℕ → Flags → Fdevents → Bool × Fdevents
  clr fd flags f =
      let es = with_fde fd f.events in
      let fde = fde_at fd es in
      let left = minus fde.s_flags flags in
      let op = if any left then ctl_mod else ctl_del in
      if meets fde.s_flags flags
      then control op fd (mask_of left)
          (record f { events = set es fd (record fde { s_flags = left }) })
      else (true, record f { events = es })

-- One event of `epoll_wait`: its descriptor (through `data.ptr`) and its bits.
pub record Ready : Type 0 where
  pub fd : ℕ
  pub epoll_in : Bool
  pub epoll_pri : Bool
  pub epoll_out : Bool
  pub epoll_hup : Bool
  pub epoll_err : Bool

pub data Waited : Type 0 where
  wait_interrupted : Waited
  wait_failed : Waited
  wait_ready : List Ready → Waited

abbrev pub ready_flags : Ready → Flags
ready_flags r = record {
  for_in = r.epoll_in || r.epoll_pri;
  for_pri = false;
  for_out = r.epoll_out;
  for_hup = false;
  for_err = r.epoll_hup || r.epoll_err;
}

unfoldable pub mark_ready : List Ready → List Fdevent → List Fdevent
mark_ready [] es = es
mark_ready (r ∷ rs) es =
    mark_ready rs (set es r.fd (record (fde_at r.fd es) { events = ready_flags r }))

abbrev pub ready_fds : List Ready → List ℕ
ready_fds [] = []
ready_fds (r ∷ rs) = r.fd ∷ ready_fds rs

module _ (k : Epoll) where
  -- `ready_events` as descriptors; `none` is NULL
  unfoldable pub wait : Waited → Fdevents k → Option (List ℕ) × Fdevents k
  unfolding mark_ready
  wait wait_interrupted f = (some [], f)
  wait wait_failed f = (none, f)
  wait (wait_ready rs) f = (some (ready_fds rs), record f { events = mark_ready rs f.events })
