-- ===== src/Kvstore/Table.antt =====
-- `kvstore_process_packet` (kvstorelib.cpp) against a table: what a client may count on.
use expert_spoon.Prelude.{
  ℕ, ◌≡◌, refl, sym, ap, subst, ◌⊎◌, ◌∙◌, Bool, true, false, not, ◌&&◌, Option, none, some, inl,
  inr, Str, arith, ◌==◌, if◌then◌else◌,
}
use expert_spoon.Kvstore.{
  CuckooMap, Message, same_key, is_some, or_else, get, put, delete, update, ok, error, live,
  Processed, replied, finish, process_live, is_operation, kvstore_process_packet,
}
use expert_spoon.Kvstore.Keys.{same_key_eq}

abbrev pub Table : Type 0
Table = Str → Option Str

-- PUT wants a new key, every other request a key that is there.
abbrev pub succeeds : Message → Table → Bool
succeeds send t = if send.operation == put then not (is_some (t send.key)) else is_some (t send.key)

-- What a request that succeeds leaves at its own key.
abbrev pub written : Message → Table → Option Str
written send t =
    if send.operation == get
    then t send.key
    else if send.operation == delete
    then none
    else some send.value

abbrev pub table_after : Message → Table → Table
table_after send t j = if succeeds send t && same_key send.key j then written send t else t j

-- The reply: the status, and the value that GET found; all else as it came.
abbrev pub reply_to : Message → Table → Message
reply_to send t = record {
  operation = if succeeds send t then ok else error;
  keepalive = send.keepalive;
  key = send.key;
  value = if send.operation == get then or_else (t send.key) send.value else send.value;
}

module _ (c : CuckooMap) (send : Message) (m : c.Map) where
  -- What `process_live` does, at the table that the map stands for.
  pub record Answers : Type 0 where
    pub next : c.Map
    pub processed :
        process_live c send m
        ≡ replied (succeeds send (c.find m)) (reply_to send (c.find m)) (live next)
    pub after : (j : Str) → c.find next j ≡ table_after send (c.find m) j

finish_eq :
    (c : CuckooMap) (send : Message) (b : Bool) (m : c.Map)
    → finish c send (b, m)
      ≡ replied b (record send { operation = if b then ok else error }) (live m)
unfolding finish
finish_eq c send true m = refl
finish_eq c send false m = refl

-- The map's answer at a key `j` (`b` says whether it is the request's own key) is the table's.
get_entry :
    (o oj : Option Str) (b : Bool) → (b ≡ true → o ≡ oj) → oj ≡ (if is_some o && b then o else oj)
get_entry none oj b h = refl
get_entry (some a) oj true h = sym (h refl)
get_entry (some a) oj false h = refl

put_entry :
    (o oj : Option Str) (v : Str) (b : Bool)
    → (b ≡ true → o ≡ oj)
    → (if b then some (or_else o v) else oj) ≡ (if not (is_some o) && b then some v else oj)
put_entry none oj v true h = refl
put_entry none oj v false h = refl
put_entry (some a) oj v true h = h refl
put_entry (some a) oj v false h = refl

delete_entry :
    (o oj : Option Str) (b : Bool)
    → (b ≡ true → o ≡ oj)
    → (if b then none else oj) ≡ (if is_some o && b then none else oj)
delete_entry none oj true h = h refl
delete_entry none oj false h = refl
delete_entry (some a) oj true h = refl
delete_entry (some a) oj false h = refl

update_entry :
    (o oj : Option Str) (v : Str) (b : Bool)
    → (b ≡ true → o ≡ oj)
    → (if b then (if is_some o then some v else none) else oj)
      ≡ (if is_some o && b then some v else oj)
update_entry none oj v true h = h refl
update_entry none oj v false h = refl
update_entry (some a) oj v true h = refl
update_entry (some a) oj v false h = refl

module _ (c : CuckooMap) (ka : ℕ) (key value : Str) (m : c.Map) where
  abbrev request : ℕ → Message
  request op = record { operation = op; keepalive = ka; key = key; value = value }

  answered : c.Map → Bool → Processed c
  answered next b =
      replied b
        (record { operation = if b then ok else error; keepalive = ka; key = key; value = value })
        (live next)

  same_find : (j : Str) → same_key key j ≡ true → c.find m key ≡ c.find m j
  same_find j h = ap (c.find m) (same_key_eq key j h)

  answers_get : Answers c (request get) m
  unfolding process_live answered
  answers_get = record {
    next = m;
    processed = finish_eq c _ (is_some (c.find m key)) m;
    after = λ j. get_entry (c.find m key) (c.find m j) (same_key key j) (same_find j);
  }

  answers_put : Answers c (request put) m
  unfolding process_live answered
  answers_put = record {
    next = (c.insert m key value).1;
    processed =
        finish_eq c _ (c.insert m key value).0 (c.insert m key value).1
        ∙ ap (answered (c.insert m key value).1) (c.insert_result m key value);
    after = λ j.
        c.find-insert m key value j
        ∙ put_entry (c.find m key) (c.find m j) value (same_key key j) (same_find j);
  }

  answers_delete : Answers c (request delete) m
  unfolding process_live answered
  answers_delete = record {
    next = (c.erase m key).1;
    processed =
        finish_eq c _ (c.erase m key).0 (c.erase m key).1
        ∙ ap (answered (c.erase m key).1) (c.erase_result m key);
    after = λ j.
        c.find-erase m key j
        ∙ delete_entry (c.find m key) (c.find m j) (same_key key j) (same_find j);
  }

  answers_update : Answers c (request update) m
  unfolding process_live answered
  answers_update = record {
    next = (c.update m key value).1;
    processed =
        finish_eq c _ (c.update m key value).0 (c.update m key value).1
        ∙ ap (answered (c.update m key value).1) (c.update_result m key value);
    after = λ j.
        c.find-update m key value j
        ∙ update_entry (c.find m key) (c.find m j) value (same_key key j) (same_find j);
  }

operation_cases :
    (op : ℕ) → is_operation op ≡ true → (op ≡ get) ⊎ ((op ≡ put) ⊎ ((op ≡ delete) ⊎ (op ≡ update)))
unfolding is_operation
operation_cases op h = ground arith

answers :
    (c : CuckooMap) (send : Message) (m : c.Map)
    → is_operation send.operation ≡ true
    → Answers c send m
answers c send m h = elim (operation_cases send.operation h) [
  | inl e ↦ at get e (answers_get c send.keepalive send.key send.value m)
  | inr (inl e) ↦ at put e (answers_put c send.keepalive send.key send.value m)
  | inr (inr (inl e)) ↦ at delete e (answers_delete c send.keepalive send.key send.value m)
  | inr (inr (inr e)) ↦ at update e (answers_update c send.keepalive send.key send.value m)
]
  where
    at :
        (op : ℕ)
        → send.operation ≡ op
        → Answers c
            (record {
              operation = op;
              keepalive = send.keepalive;
              key = send.key;
              value = send.value;
            })
            m
        → Answers c send m
    at op e a =
        subst
          (λ o.
            Answers c
              (record {
                operation = o;
                keepalive = send.keepalive;
                key = send.key;
                value = send.value;
              })
              m)
          (sym e) a

-- `kvstore_process_packet` implements a table from keys to values: for a known operation and a live
-- store, the result, the reply and the store after it are those of the table. PUT succeeds where the
-- key is new, the others where it is there; a request that fails changes nothing, and no request
-- changes another key.
pub process-Answers :
    (c : CuckooMap) (send : Message) (m : c.Map)
    → is_operation send.operation ≡ true
    → (next : c.Map) × (kvstore_process_packet c send (live m)
        ≡ replied (succeeds send (c.find m)) (reply_to send (c.find m)) (live next))
      × ((j : Str) → c.find next j ≡ table_after send (c.find m) j)
unfolding kvstore_process_packet
process-Answers c send m h = let r = answers c send m h in (r.next, r.processed, r.after)
