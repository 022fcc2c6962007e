-- ===== src/Checker.antt =====
-- testclient/checkoutput.c: the responses that the checker of recorded traces expects. Its map is a function,
-- as kvstorelib's table is; `status_code` and `keepalive` are neither set nor compared.
pub mod Store
use expert_spoon.Prelude.{
  ℕ, zero, suc, Bool, true, false, ◌&&◌, ◌||◌, Option, none, some, List, [], ◌∷◌, ◌++◌, Str,
  if◌then◌else◌, ◌==◌, take, drop, replicate, get_or,
}
use expert_spoon.Kvstore.{Message, same_key}

pub record Expected : Type 0 where
  pub key : Str
  pub value : Str

-- The loops of compareResp over the first characters of two arrays.
unfoldable pub same_chars : ℕ → Str → Str → Bool
same_chars zero a b = true
same_chars (suc n) a b = get_or a 0 0 == get_or b 0 0 && same_chars n (drop 1 a) (drop 1 b)

-- compareResp: 1 is true.
unfoldable pub compare_resp : Message → Expected → Bool
compare_resp resp checkresp =
    same_chars 16 resp.key checkresp.key && same_chars 32 resp.value checkresp.value

-- memset, and the memcpy of 16 bytes
unfoldable pub found_value : Option Str → Str
found_value none = replicate 32 0
found_value (some v) = take 16 v ++ replicate 16 0

-- insert, or the assignment to what is there
unfoldable pub stored : Str → Str → (Str → Option Str) → Str → Option Str
stored k v m j = if same_key k j then some v else m j

-- The expected response to a request, and the map behind it. A key that is not there is erased.
unfoldable pub expected : Message → (Str → Option Str) → Expected × (Str → Option Str)
expected send m =
    if send.operation == 0
    then (record { key = take 16 send.key; value = found_value (m send.key) }, m)
    else (
      record { key = take 16 send.key; value = take 32 send.value },
      (if send.operation == 1 || send.operation == 3 then stored send.key send.value m else m),
    )
