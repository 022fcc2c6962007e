-- ===== src/Checker/Store.antt =====
-- The checker (testclient/checkoutput.c) against the store's table (kvstorelib).
use expert_spoon.Prelude.{
  ℕ, zero, suc, ◌+◌, ◌≤◌, ◌≡◌, refl, sym, ap, ap₂, ◌∙◌, Bool, true, false, ◌&&◌, inl, inr, none,
  some, [], ◌∷◌, ◌++◌, Str, arith, if◌then◌else◌, ◌==◌, ==_refl, ==→eq, subst, take, drop, take_all,
  replicate, get_or, length, Bool-cases, Option-cases,
}
use expert_spoon.Kvstore.{
  Message, same_key, is_some, or_else, get, put, delete, update, is_operation,
}
use expert_spoon.Kvstore.Keys.{same_key_eq}
use expert_spoon.Kvstore.Table.{Table, succeeds, reply_to, table_after}
use expert_spoon.Checker.{same_chars, compare_resp, found_value, stored, expected}

same_chars_refl : (n : ℕ) (a : Str) → same_chars n a a ≡ true
unfolding same_chars
same_chars_refl zero a = refl
same_chars_refl (suc n) a = rw (==_refl (get_or a 0 0)) (same_chars_refl n (drop 1 a))

same_chars-take :
    (n : ℕ) (a z : Str)
    → n ≤ length a
    → (m : ℕ) → same_chars (n + m) a (take n a ++ z) ≡ same_chars m (drop n a) z
unfolding same_chars
same_chars-take zero a z h m = ap (λ k. same_chars k a z) (omega arith)
same_chars-take (suc n) [] z h m = absurd (omega (arith, h))
same_chars-take (suc n) (x ∷ a) z h m =
    ap (λ k. same_chars k (x ∷ a) (x ∷ (take n a ++ z)))
      (let e : suc n + m ≡ suc (n + m) = omega arith in e)
    ∙ rw (==_refl x) (same_chars-take n a z (omega (arith, h)) m)

halves :
    (v : Str)
    → length v ≡ 32
    → same_chars 32 v (take 16 v ++ replicate 16 0) ≡ same_chars 16 (drop 16 v) (replicate 16 0)
halves v n =
    let two : 32 ≡ 16 + 16 = omega arith in
    ap (λ k. same_chars k v (take 16 v ++ replicate 16 0)) two
    ∙ same_chars-take 16 v (replicate 16 0) (omega (arith, n)) 16

key_same : (k : Str) → length k ≡ 16 → same_chars 16 k (take 16 k) ≡ true
key_same k h = ap (same_chars 16 k) (take_all 16 k (omega (arith, h))) ∙ same_chars_refl 16 k

value_same : (v : Str) → length v ≡ 32 → same_chars 32 v (take 32 v) ≡ true
value_same v h = ap (same_chars 32 v) (take_all 32 v (omega (arith, h))) ∙ same_chars_refl 32 v

-- What the checker makes of a request that succeeded, and of the reply to it.
abbrev pub Checks : Message → Table → Type 0
Checks send t =
    (compare_resp (reply_to send t) (expected send t).0 ≡ (
      if send.operation == get
      then same_chars 16 (drop 16 (or_else (t send.key) send.value)) (replicate 16 0)
      else true))
    × ((j : Str)
        → (expected send t).1 j ≡ (if send.operation == delete then t j else table_after send t j))

module _ (send : Message) (t : Table) (key_size : length send.key ≡ 16)
    (value_size : length send.value ≡ 32) where
  abbrev with_operation : ℕ → Message
  with_operation op = record send { operation = op }

  get-Checks : (v : Str) → t send.key ≡ some v → length v ≡ 32 → Checks (with_operation get) t
  unfolding compare_resp expected found_value
  get-Checks v e n = (
    ap₂ (λ a b. a && b) (key_same send.key key_size)
          (ap (λ o. same_chars 32 (or_else o send.value) (found_value o)) e ∙ halves v n)
        ∙ ap (λ o. same_chars 16 (drop 16 (or_else o send.value)) (replicate 16 0)) (sym e),
    λ j. sym (get_table j (is_some (t send.key) && same_key send.key j) refl),
  )
    where
      get_table :
          (j : Str) (b : Bool)
          → (is_some (t send.key) && same_key send.key j) ≡ b
          → (if b then t send.key else t j) ≡ t j
      get_table j false h = refl
      get_table j true h = ap t (same_key_eq send.key j (second (is_some (t send.key)) h))
        where
          second : (a : Bool) → (a && same_key send.key j) ≡ true → same_key send.key j ≡ true
          second true h = h
          second false h = cc

  put-Checks : succeeds (with_operation put) t ≡ true → Checks (with_operation put) t
  unfolding compare_resp expected stored
  put-Checks done = (
    ap₂ (λ a b. a && b) (key_same send.key key_size) (value_same send.value value_size),
    λ j. ap (λ b. if b && same_key send.key j then some send.value else t j) (sym done),
  )

  update-Checks : succeeds (with_operation update) t ≡ true → Checks (with_operation update) t
  unfolding compare_resp expected stored
  update-Checks done = (
    ap₂ (λ a b. a && b) (key_same send.key key_size) (value_same send.value value_size),
    λ j. ap (λ b. if b && same_key send.key j then some send.value else t j) (sym done),
  )

  delete-Checks : Checks (with_operation delete) t
  unfolding compare_resp expected
  delete-Checks = (
    ap₂ (λ a b. a && b) (key_same send.key key_size) (value_same send.value value_size),
    λ j. refl,
  )

  by_operation :
      (op : ℕ)
      → is_operation op ≡ true
      → succeeds (with_operation op) t ≡ true
      → ((v : Str) → t send.key ≡ some v → length v ≡ 32)
      → Checks (with_operation op) t
  unfolding is_operation
  by_operation op known done sized = elim (Bool-cases (op == get)) [
    | inl e ↦ at get e (λ d. elim (Option-cases (t send.key)) [
      | inl h ↦ absurd (none_found h d)
      | inr (v, h) ↦ get-Checks v h (sized v h)
    ])
    | inr a ↦ elim (Bool-cases (op == put)) [
      | inl e ↦ at put e put-Checks
      | inr b ↦ elim (Bool-cases (op == delete)) [
        | inl e ↦ at delete e (λ d. delete-Checks)
        | inr c ↦ at update (rw (a, b, c) at known) update-Checks
      ]
    ]
  ]
    where
      at :
          (k : ℕ)
          → (op == k) ≡ true
          → (succeeds (with_operation k) t ≡ true → Checks (with_operation k) t)
          → Checks (with_operation op) t
      at k e f =
          let same : op ≡ k = ==→eq op k e in
          subst (λ x. Checks (with_operation x) t) (sym same)
            (f (subst (λ x. succeeds (with_operation x) t ≡ true) same done))

      none_found : t send.key ≡ none → is_some (t send.key) ≡ true → ⊥
      none_found h d = clash (ap is_some (sym h) ∙ d)
        where
          clash : false ≡ true → ⊥
          clash e = cc

-- For a request with a known operation that succeeds at the store's table, with full arrays and a
-- value of 32 bytes at its key, if any, the checker of traces accepts the store's reply, but for a
-- GET whose value is not zero from its 17th byte on, which it rejects; its map follows the table,
-- but for a DELETE, which it does not carry out.
pub compare_resp-expected :
    (send : Message) (t : Table)
    → length send.key ≡ 16
    → length send.value ≡ 32
    → is_operation send.operation ≡ true
    → succeeds send t ≡ true
    → ((v : Str) → t send.key ≡ some v → length v ≡ 32)
    → Checks send t
compare_resp-expected send t k n known done sized =
    by_operation send t k n send.operation known done sized
