-- ===== src/Tests/Heap.antt =====
-- A heap that hands out zeros and at most a megabyte, as a concrete `Allocator`.
use expert_spoon.Prelude.{
  ℕ, ◌^◌, ◌≤◌, ◌≡◌, refl, sym, ◌∙◌, Option, none, some, ◌++◌, Str, arith, ltb, if◌then◌else◌,
  length, take, replicate, length-take, length-append, length-replicate, take-append_length,
  take-take, ap,
}
use expert_spoon.Buffer.{Allocator}

pub resize : Str → ℕ → Str
resize m n = take n (m ++ replicate n 0)

unfoldable pub resized : Str → ℕ → Option Str
resized m n = if ltb n (2 ^ 20) then some (resize m n) else none

pub resized-resize : (m : Str) (n : ℕ) (p : Str) → resized m n ≡ some p → resize m n ≡ p
unfolding resized
resized-resize m n p h = ground arith

pub length-resize : (m : Str) (n : ℕ) → length (resize m n) ≡ n
unfolding resize
length-resize m n = omega (
  arith,
  length-take n (m ++ replicate n 0),
  length-append {0} m (replicate n 0),
  length-replicate {0} {A = ℕ} n 0,
)

pub take-resize : (m : Str) (n : ℕ) → length m ≤ n → take (length m) (resize m n) ≡ m
unfolding resize
take-resize m n h =
    take-take (length m) n (m ++ replicate n 0) h
    ∙ take-append_length m (replicate n 0) (length m) refl

pub resized_limit : (m : Str) (n : ℕ) → 2 ^ 63 ≤ n → resized m n ≡ none
unfolding resized
resized_limit m n h = ground arith

abbrev pub heap : Allocator
heap = record {
  malloc = λ n. replicate n 0;
  realloc = resized;
  length-malloc = λ n. length-replicate n 0;
  length-realloc = λ m n p h. ap length (sym (resized-resize m n p h)) ∙ length-resize m n;
  take-realloc =
      λ m n p h k. ap (take (length m)) (sym (resized-resize m n p h)) ∙ take-resize m n k;
  realloc_limit = resized_limit;
}
