-- ===== src/Server/Messages.antt =====
-- The loop over a buffer's messages (server-5204/msg.cpp): every whole message is answered, in order.
use expert_spoon.Prelude.{
  ℕ, ◌+◌, ◌*◌, ◌^◌, ◌<◌, ◌≡◌, refl, sym, ap, ap₂, ◌∙◌, List, [], ◌∷◌, ◌++◌, Str, arith, length,
  length-append, take, drop, take-append_length, drop-append_length, append_assoc, All,
}
use expert_spoon.Server.{Handler, message_size, process_msgs, num_msgs}

abbrev pub joined : List Str → Str
joined [] = []
joined (m ∷ ms) = m ++ joined ms

abbrev pub AreMessages : List Str → Type 0
AreMessages = All (λ m. length m ≡ message_size)

module _ (h : Handler) where
  -- The messages of a client one by one, with their responses behind one another.
  abbrev pub respond : List Str → h.Store → Str × h.Store
  respond [] s = ([], s)
  respond (m ∷ ms) s =
      ((h.process m s).0 ++ (respond ms (h.process m s).1).0, (respond ms (h.process m s).1).1)

  process_msgs-respond :
      (ms : List Str) (tail : Str) (s : h.Store)
      → AreMessages ms
      → process_msgs h (length ms) (joined ms ++ tail) s ≡ respond ms s
  unfolding process_msgs
  process_msgs-respond [] tail s w = refl
  process_msgs-respond (m ∷ ms) tail s w =
      let text = append_assoc m (joined ms) tail in
      let first : take message_size ((m ++ joined ms) ++ tail) ≡ m =
        ap (take message_size) text
        ∙ take-append_length m (joined ms ++ tail) message_size (sym w.0) in
      let rest : drop message_size ((m ++ joined ms) ++ tail) ≡ joined ms ++ tail =
        ap (drop message_size) text
        ∙ drop-append_length m (joined ms ++ tail) message_size (sym w.0) in
      let after : Str → Str → Str × h.Store = λ x y. (
        (h.process x s).0 ++ (process_msgs h (length ms) y (h.process x s).1).0,
        (process_msgs h (length ms) y (h.process x s).1).1,
      ) in
      ap₂ after first rest
      ∙ ap (λ (r : Str × h.Store). ((h.process m s).0 ++ r.0, r.1))
          (process_msgs-respond ms tail (h.process m s).1 w.1)

  pub length-respond :
      (ms : List Str) (s : h.Store) → length (respond ms s).0 ≡ message_size * length ms
  length-respond [] s = omega arith
  length-respond (m ∷ ms) s = omega (
    arith,
    length-append {0} (h.process m s).0 (respond ms (h.process m s).1).0,
    h.length-process m s,
    length-respond ms (h.process m s).1,
  )

  pub length-joined :
      (ms : List Str) → AreMessages ms → length (joined ms) ≡ message_size * length ms
  length-joined [] w = omega arith
  length-joined (m ∷ ms) w =
      omega (arith, length-append {0} m (joined ms), length-joined ms w.1, w.0)

  num_msgs-whole : (n r : ℕ) → n < 2 ^ 16 → r < message_size → num_msgs h (message_size * n + r) ≡ n
  unfolding num_msgs
  num_msgs-whole n r p q = omega arith

  -- A buffer with `ms` and less than a message behind them is answered as `ms` one by one; what stands
  -- behind the last whole message is left out.
  pub messages-respond :
      (text : Str) (ms : List Str) (tail : Str) (s : h.Store)
      → text ≡ joined ms ++ tail
      → AreMessages ms
      → length tail < message_size
      → length ms < 2 ^ 16
      → process_msgs h (num_msgs h (length text)) text s ≡ respond ms s
  messages-respond text ms tail s e w short few =
      let size : length text ≡ message_size * length ms + length tail =
        ap length e
        ∙ length-append (joined ms) tail
        ∙ ap (λ n. n + length tail) (length-joined ms w) in
      ap (λ n. process_msgs h (num_msgs h n) text s) size
      ∙ ap (λ n. process_msgs h n text s) (num_msgs-whole (length ms) (length tail) few short)
      ∙ ap (λ t. process_msgs h (length ms) t s) e
      ∙ process_msgs-respond ms tail s w
