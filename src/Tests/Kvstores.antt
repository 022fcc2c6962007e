-- ===== src/Tests/Kvstores.antt =====
-- kvstorelib on a store of two keys, over a map kept as a function.
use expert_spoon.Prelude.{
  ℕ, suc, ◌≡◌, refl, true, false, not, Option, none, some, [], ◌∷◌, Str, if◌then◌else◌,
}
use expert_spoon.Kvstore
use expert_spoon.Kvstore.{
  CuckooMap, Message, same_key, is_some, or_else, get, put, ok, delete, live, freed, replied,
  undefined, is_operation, kvstore_process_packet, kvstore_create, kvstore_destroy, process_live,
}
use expert_spoon.Kvstore.Table.{succeeds, reply_to, table_after, process-Answers}
use expert_spoon.Kvstore.History.{Serves, nothing, serves, get-after-put, create-after-destroy}

abbrev pub FunctionMap : Type 0
FunctionMap = (Str → Option Str) × ℕ

abbrev pub cuckoo : CuckooMap
cuckoo = record {
  Map = FunctionMap;
  empty = ((λ j. none), 0);
  find = λ m k. m.0 k;
  insert = λ m k v. (
    not (is_some (m.0 k)),
    (
      (λ j. if same_key k j then some (or_else (m.0 k) v) else m.0 j),
      (if is_some (m.0 k) then m.1 else suc m.1),
    ),
  );
  erase = λ m k. (is_some (m.0 k), ((λ j. if same_key k j then none else m.0 j), m.1));
  update = λ m k v. (
    is_some (m.0 k),
    ((λ j. if same_key k j then (if is_some (m.0 k) then some v else none) else m.0 j), m.1),
  );
  contains = λ m k. is_some (m.0 k);
  size = λ m. m.1;
  find-empty = λ k. refl;
  insert_result = λ m k v. refl;
  find-insert = λ m k v j. refl;
  erase_result = λ m k. refl;
  find-erase = λ m k j. refl;
  update_result = λ m k v. refl;
  find-update = λ m k v j. refl;
  contains_result = λ m k. refl;
}

abbrev put_k : Message
put_k = record { operation = put; keepalive = 1; key = b'k' ∷ []; value = b'v' ∷ [] }

abbrev get_k : Message
get_k = record { operation = get; keepalive = 1; key = b'k' ∷ []; value = b'?' ∷ [] }

abbrev get_j : Message
get_j = record { operation = get; keepalive = 1; key = b'j' ∷ []; value = [] }

known_put : is_operation put_k.operation ≡ true
unfolding is_operation
known_put = refl

process-Answers_example :
    (next : FunctionMap) × (kvstore_process_packet cuckoo put_k (live cuckoo.empty)
      ≡ replied
          (succeeds put_k (cuckoo.find cuckoo.empty))
          (reply_to put_k (cuckoo.find cuckoo.empty))
          (live next))
    × ((j : Str) → cuckoo.find next j ≡ table_after put_k (cuckoo.find cuckoo.empty) j)
process-Answers_example = process-Answers cuckoo put_k cuckoo.empty known_put

-- The store with "k", and the replies.
abbrev with_k : FunctionMap
with_k = (cuckoo.insert cuckoo.empty put_k.key put_k.value).1

put_runs :
    kvstore_process_packet cuckoo put_k (live cuckoo.empty)
    ≡ replied true (record put_k { operation = ok }) (live with_k)
unfolding kvstore_process_packet process_live same_key Kvstore.finish Kvstore.store_insert
put_runs = refl

miss_runs :
    kvstore_process_packet cuckoo get_j (live with_k)
    ≡ replied false (record get_j { operation = Kvstore.error }) (live with_k)
unfolding kvstore_process_packet process_live same_key Kvstore.finish Kvstore.store_find
miss_runs = refl

between : Serves cuckoo (get_j ∷ []) with_k (record get_j { operation = Kvstore.error } ∷ []) with_k
between = serves miss_runs (nothing with_k)

get-after-put_example :
    (after : FunctionMap) × (kvstore_process_packet cuckoo get_k (live with_k)
      ≡ replied true (record get_k { operation = ok; value = b'v' ∷ [] }) (live after))
get-after-put_example =
    get-after-put cuckoo put_k get_k cuckoo.empty with_k with_k refl refl refl put_runs between
      (unfold is_operation in refl, unfold same_key in refl, tt)

destroyed : kvstore_destroy cuckoo (live with_k) ≡ some freed
unfolding kvstore_destroy
destroyed = refl

create-after-destroy_example :
    (kvstore_process_packet cuckoo put_k (kvstore_create cuckoo freed) ≡ undefined)
    × (kvstore_destroy cuckoo (kvstore_create cuckoo freed) ≡ none)
create-after-destroy_example = create-after-destroy cuckoo with_k freed put_k destroyed known_put
