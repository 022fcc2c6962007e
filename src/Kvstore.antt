-- ===== src/Kvstore.antt =====
-- kvstorelib: the messages (messages.h), the store's interface (kvstore.h, cuckoo_kvstore.cpp) and the
-- library's three functions (kvstorelib.cpp). libcuckoo's hash map, which is not part of the
-- repository, is a `CuckooMap`: what its documentation says of each call.
pub mod Keys
pub mod Table
pub mod History
use expert_spoon.Prelude.{
  ℕ, ◌≡◌, Bool, true, false, not, ◌&&◌, ◌||◌, Option, none, some, List, [], ◌∷◌, Str, ◌==◌,
  if◌then◌else◌,
}

-- operator == on keys: memcmp over the whole array
unfoldable pub same_key : Str → Str → Bool
same_key [] [] = true
same_key [] (y ∷ ys) = false
same_key (x ∷ xs) [] = false
same_key (x ∷ xs) (y ∷ ys) = x == y && same_key xs ys

abbrev pub is_some {ℓ} : {A : Type ℓ} → Option A → Bool
is_some none = false
is_some (some a) = true

abbrev pub or_else {ℓ} : {A : Type ℓ} → Option A → A → A
or_else none d = d
or_else (some a) d = a

-- cuckoohash_map<Key, Value>. `insert` keeps the value of a key that is there; `find` writes its second
-- argument only where the key is found.
pub record CuckooMap : Type 1 where
  pub Map : Type 0
  pub empty : Map
  pub find : Map → Str → Option Str
  pub insert : Map → Str → Str → Bool × Map
  pub erase : Map → Str → Bool × Map
  pub update : Map → Str → Str → Bool × Map
  pub contains : Map → Str → Bool
  pub size : Map → ℕ
  pub find-empty : (k : Str) → find empty k ≡ none
  pub insert_result : (m : Map) (k v : Str) → (insert m k v).0 ≡ not (is_some (find m k))
  pub find-insert :
      (m : Map) (k v j : Str)
      → find (insert m k v).1 j ≡ (if same_key k j then some (or_else (find m k) v) else find m j)
  pub erase_result : (m : Map) (k : Str) → (erase m k).0 ≡ is_some (find m k)
  pub find-erase :
      (m : Map) (k j : Str) → find (erase m k).1 j ≡ (if same_key k j then none else find m j)
  pub update_result : (m : Map) (k v : Str) → (update m k v).0 ≡ is_some (find m k)
  pub find-update :
      (m : Map) (k v j : Str)
      → find (update m k v).1 j
        ≡ (if same_key k j then (if is_some (find m k) then some v else none) else find m j)
  pub contains_result : (m : Map) (k : Str) → contains m k ≡ is_some (find m k)

-- struct send_message, which is also the reply: `operation` is then the status.
pub record Message : Type 0 where
  pub operation : ℕ
  pub keepalive : ℕ
  pub key : Str
  pub value : Str

-- Operation
abbrev pub get : ℕ
get = 0

abbrev pub put : ℕ
put = 1

abbrev pub delete : ℕ
delete = 2

abbrev pub update : ℕ
update = 3

-- StatusCode, of which the library sends these two
abbrev pub ok : ℕ
ok = 0

abbrev pub error : ℕ
error = 1

-- The values that the switch has a case for.
unfoldable pub is_operation : ℕ → Bool
is_operation op = op == get || (op == put || (op == delete || op == update))

module _ (c : CuckooMap) where
  -- class CuckooKVStore, whose methods hand on to the map
  unfoldable pub store_insert : c.Map → Str → Str → Bool × c.Map
  store_insert m key value = c.insert m key value

  -- the result, and `*out_value` after the call
  unfoldable pub store_find : c.Map → Str → Str → Bool × Str
  store_find m key out_value = (is_some (c.find m key), or_else (c.find m key) out_value)

  unfoldable pub store_erase : c.Map → Str → Bool × c.Map
  store_erase m key = c.erase m key

  unfoldable pub store_contains : c.Map → Str → Bool
  store_contains m key = c.contains m key

  unfoldable pub store_update : c.Map → Str → Str → Bool × c.Map
  store_update m key value = c.update m key value

  unfoldable pub store_size : c.Map → ℕ
  store_size m = c.size m

  -- `ptr_KVStore`: NULL, a store, or a store that `delete` has freed.
  pub data Pointer : Type 0 where
    null : Pointer
    live : c.Map → Pointer
    freed : Pointer

  -- The reply in place of the request with the store and the result; `exit(1)`; a call through NULL or
  -- a freed pointer.
  pub data Processed : Type 0 where
    replied : Bool → Message → Pointer → Processed
    exits : Processed
    undefined : Processed

  unfoldable pub kvstore_create : Pointer → Pointer
  kvstore_create null = live c.empty
  kvstore_create p = p

  -- Deleting NULL does nothing; the pointer keeps its value, and to delete it again is undefined
  -- (`none`).
  unfoldable pub kvstore_destroy : Pointer → Option Pointer
  kvstore_destroy null = some null
  kvstore_destroy (live m) = some freed
  kvstore_destroy freed = none

  unfoldable pub finish : Message → Bool × c.Map → Processed
  finish send (true, m) = replied true (record send { operation = ok }) (live m)
  finish send (false, m) = replied false (record send { operation = error }) (live m)

  -- the switch over the operation, at a store
  unfoldable pub process_live : Message → c.Map → Processed
  unfolding store_find store_insert store_erase store_update
  process_live send m =
      if send.operation == get
      then (let (result, value) = store_find m send.key send.value in
          finish (record send { value = value }) (result, m))
      else if send.operation == put
      then finish send (store_insert m send.key send.value)
      else if send.operation == delete
      then finish send (store_erase m send.key)
      else if send.operation == update
      then finish send (store_update m send.key send.value)
      else exits

  unfoldable pub kvstore_process_packet : Message → Pointer → Processed
  kvstore_process_packet send (live m) = process_live send m
  kvstore_process_packet send null = if is_operation send.operation then undefined else exits
  kvstore_process_packet send freed = if is_operation send.operation then undefined else exits
