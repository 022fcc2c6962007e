-- ===== src/LinkedList.antt =====
-- LinkedList (server-5204/util/list.h): nodes that hold the links to their neighbours, at addresses that are
-- numbers; NULL is `none`. `size` is an `int`, as the number of its 32 bits.
pub mod Segment
pub mod Sequence
pub mod Refine
use expert_spoon.Prelude.{
  ℕ, zero, suc, ◌+◌, ◌-◌, ◌%◌, ◌^◌, Bool, true, false, Option, none, some, List, [], ◌∷◌,
  if◌then◌else◌, ◌==◌,
}

pub record Node : Type 0 where
  pub prev : Option ℕ
  pub next : Option ℕ

-- The nodes of the program, and the list's own fields.
pub record LinkedList : Type 0 where
  pub nodes : ℕ → Node
  pub size : ℕ
  pub head : Option ℕ
  pub tail : Option ℕ

unfoldable pub new : (ℕ → Node) → LinkedList
new nodes = record { nodes = nodes; size = 0; head = none; tail = none }

unfoldable pub empty : LinkedList → Bool
empty l = l.size == 0

-- if(p){ p->next = v; } and if(p){ p->prev = v; }
unfoldable pub link_next : Option ℕ → Option ℕ → (ℕ → Node) → ℕ → Node
link_next none v h x = h x
link_next (some p) v h x = if x == p then record (h x) { next = v } else h x

unfoldable pub link_prev : Option ℕ → Option ℕ → (ℕ → Node) → ℕ → Node
link_prev none v h x = h x
link_prev (some p) v h x = if x == p then record (h x) { prev = v } else h x

-- p == t
abbrev pub is_at : Option ℕ → ℕ → Bool
is_at none t = false
is_at (some p) t = p == t

unfoldable pub remove : ℕ → LinkedList → LinkedList
remove t l =
    let h1 = link_next (l.nodes t).prev (l.nodes t).next l.nodes in
    let h2 = link_prev (h1 t).next (h1 t).prev h1 in
    record {
      nodes = h2;
      size = (l.size + (2 ^ 32 - 1)) % 2 ^ 32;
      head = if is_at l.head t then (h2 t).next else l.head;
      tail = if is_at l.tail t then (h2 t).prev else l.tail;
    }

-- An empty list has no node to remove: `none`, where NULL is read through.
unfoldable pub pop_front : LinkedList → Option (ℕ × LinkedList)
pop_front l = elim l.head [ none ↦ none | some t ↦ some (t, remove t l) ]

unfoldable pub push_back : ℕ → LinkedList → LinkedList
push_back t l =
    let h : ℕ → Node = λ x. if x == t then record { prev = l.tail; next = none } else l.nodes x in
    record {
      nodes = link_next l.tail (some t) h;
      size = (l.size + 1) % 2 ^ 32;
      head = elim l.tail [ none ↦ some t | some u ↦ l.head ];
      tail = some t;
    }

-- Iterator::next: the node it stood at, and where it stands then.
unfoldable pub next : (ℕ → Node) → Option ℕ → Option ℕ × Option ℕ
next h none = (none, none)
next h (some p) = (some p, (h p).next)

-- The nodes that an iterator gives in so many calls.
unfoldable pub iterate : ℕ → (ℕ → Node) → Option ℕ → List ℕ
iterate zero h p = []
iterate (suc n) h p = elim ((next h p).0) [ none ↦ [] | some x ↦ x ∷ iterate n h (next h p).1 ]
