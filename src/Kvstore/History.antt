-- ===== src/Kvstore/History.antt =====
-- A client's requests in order (kvstorelib.cpp): what a later GET sees, and the pointer's life.
use expert_spoon.Prelude.{
  ℕ, ◌≡◌, refl, sym, ap, ap₂, ◌∙◌, Bool, true, false, Option, none, some, List, [], ◌∷◌, Str, arith,
}
use expert_spoon.Kvstore.{
  CuckooMap, Message, same_key, get, put, ok, Pointer, null, live, freed, Processed, replied,
  undefined, is_operation, kvstore_process_packet, kvstore_create, kvstore_destroy,
}
use expert_spoon.Kvstore.Keys.{same_key_refl}
use expert_spoon.Kvstore.Table.{process-Answers, succeeds, reply_to, table_after}

-- The requests in order, each at the store that the one before left, with their replies.
pub data Serves (c : CuckooMap) : List Message → c.Map → List Message → c.Map → Type 0 where
  nothing : (m : c.Map) → Serves c [] m [] m
  serves :
      {send reply : Message} {sends replies : List Message} {m next last : c.Map} {b : Bool}
      → kvstore_process_packet c send (live m) ≡ replied b reply (live next)
      → Serves c sends next replies last
      → Serves c (send ∷ sends) m (reply ∷ replies) last

abbrev pub Others : Str → List Message → Type 0
Others k [] = Unit
Others k (send ∷ sends) =
    (is_operation send.operation ≡ true) × (same_key send.key k ≡ false) × Others k sends

module _ (c : CuckooMap) where
  replied_parts :
      (b b' : Bool) (r r' : Message) (m m' : c.Map)
      → ◌≡◌ {A = Processed c} (replied b r (live m)) (replied b' r' (live m'))
      → (b ≡ b') × (r ≡ r') × (m ≡ m')
  replied_parts b b' r r' m m' h = (cc, cc, cc)

  table_elsewhere :
      (send : Message) (t : Str → Option Str) (k : Str)
      → same_key send.key k ≡ false
      → table_after send t k ≡ t k
  table_elsewhere send t k h = ground arith

  -- Requests on other keys do not change what is stored under `k`.
  pub find-Serves :
      {sends replies : List Message} {m last : c.Map} (k : Str)
      → Serves c sends m replies last
      → Others k sends
      → c.find last k ≡ c.find m k
  find-Serves k (nothing m) h = refl
  find-Serves k (serves {send = send} {reply = reply} {m = m} {next = next} {b = b} e rest)
        (known, other, others) =
      let (next', processed, after) = process-Answers c send m known in
      let (_, _, same) =
        replied_parts b (succeeds send (c.find m)) reply (reply_to send (c.find m)) next next'
          (sym e ∙ processed) in
      find-Serves k rest others
      ∙ ap (λ n. c.find n k) same
      ∙ after k
      ∙ table_elsewhere send (c.find m) k other

  put_stored :
      (send : Message) (t : Str → Option Str)
      → send.operation ≡ put
      → succeeds send t ≡ true
      → table_after send t send.key ≡ some send.value
  put_stored send t e h = ground (arith, same_key_refl send.key)

  get_found :
      (send : Message) (t : Str → Option Str) (v : Str)
      → send.operation ≡ get
      → t send.key ≡ some v
      → (succeeds send t ≡ true) × (reply_to send t ≡ record send { operation = ok; value = v })
  get_found send t v e h = (ground arith, ground arith)

  -- Once a PUT has succeeded, a GET of its key replies OK with the value that was put, whatever
  -- requests on other keys were served in between.
  pub get-after-put :
      (stored asked : Message) (m next last : c.Map) {reply : Message}
      {sends replies : List Message}
      → stored.operation ≡ put
      → asked.operation ≡ get
      → stored.key ≡ asked.key
      → kvstore_process_packet c stored (live m) ≡ replied true reply (live next)
      → Serves c sends next replies last
      → Others stored.key sends
      → (after : c.Map) × (kvstore_process_packet c asked (live last)
          ≡ replied true (record asked { operation = ok; value = stored.value }) (live after))
  get-after-put stored asked m next last {reply} put_it get_it same e served others =
      let (next', processed, after) =
        process-Answers c stored m (known_put stored.operation put_it) in
      let (success, _, same_next) =
        replied_parts true (succeeds stored (c.find m)) reply (reply_to stored (c.find m)) next
          next' (sym e ∙ processed) in
      let found : c.find last asked.key ≡ some stored.value =
        ap (c.find last) (sym same)
        ∙ find-Serves stored.key served others
        ∙ ap (λ n. c.find n stored.key) same_next
        ∙ after stored.key
        ∙ put_stored stored (c.find m) put_it (sym success) in
      let (done, answer) = get_found asked (c.find last) stored.value get_it found in
      let (end, got, _) = process-Answers c asked last (known_get asked.operation get_it) in
      (end, got ∙ ap₂ (λ b r. replied b r (live end)) done answer)
    where
      known_put : (op : ℕ) → op ≡ put → is_operation op ≡ true
      known_put op e = unfold is_operation in ground arith

      known_get : (op : ℕ) → op ≡ get → is_operation op ≡ true
      known_get op e = unfold is_operation in ground arith

  -- After `kvstore_destroy` of a live store, `kvstore_create` makes no new store: the next request
  -- with a known operation uses the freed one, and a second `kvstore_destroy` frees it again.
  pub create-after-destroy :
      (m : c.Map) (p : Pointer c) (send : Message)
      → kvstore_destroy c (live m) ≡ some p
      → is_operation send.operation ≡ true
      → (kvstore_process_packet c send (kvstore_create c p) ≡ undefined)
        × (kvstore_destroy c (kvstore_create c p) ≡ none)
  unfolding kvstore_process_packet kvstore_create kvstore_destroy
  create-after-destroy m null send e h = cc
  create-after-destroy m (live n) send e h = cc
  create-after-destroy m freed send e h = (rw h refl, refl)
