-- ===== src/Tests/Checkers.antt =====
-- A GET of a value whose 17th byte is not zero: the store's reply is right, the checker expects another.
use expert_spoon.Prelude.{◌≡◌, refl, true, false, some, Str, replicate, length, subst}
use expert_spoon.Kvstore.{Message, get, is_operation}
use expert_spoon.Kvstore.Table.{Table, reply_to}
use expert_spoon.Checker.{same_chars, compare_resp, found_value, expected}
use expert_spoon.Checker.Store.{Checks, compare_resp-expected}

abbrev long_value : Str
long_value = replicate 32 b'v'

abbrev full : Table
full j = some long_value

abbrev get_q : Message
get_q = record { operation = get; keepalive = 1; key = replicate 16 b'q'; value = replicate 32 0 }

known : is_operation get_q.operation ≡ true
unfolding is_operation
known = refl

sized : (v : Str) → some long_value ≡ some v → length v ≡ 32
sized v e = let p : long_value ≡ v = cc in subst (λ x. length x ≡ 32) p refl

rejected : compare_resp (reply_to get_q full) (expected get_q full).0 ≡ false
unfolding compare_resp expected found_value same_chars
rejected = refl

compare_resp-expected_example : Checks get_q full
compare_resp-expected_example = compare_resp-expected get_q full refl refl known refl sized
