-- ===== src/Tests/Responses.antt =====
-- class Response on short replies.
use expert_spoon.Prelude.{◌≡◌, ◌^◌, ltb, refl, none, some, [], ◌∷◌, if◌then◌else◌}
use expert_spoon.Prelude.Decimal.{decimal}
use expert_spoon.Response.{
  pos, negsuc, add_int64, add_uint64, reply_get, ok_word, not_found_word, push_back,
}
use expert_spoon.Response.Replies.{add-bounds}

add-bounds_example :
    (add_uint64 7 (ok_word ∷ [])
      ≡ (if ltb 7 (10 ^ 19) then some (ok_word ∷ decimal 7 ∷ []) else none))
    × (add_int64 (pos 7) (ok_word ∷ [])
        ≡ (if ltb 7 (10 ^ 19) then some (ok_word ∷ decimal 7 ∷ []) else none))
    × (add_int64 (negsuc 7) (ok_word ∷ [])
        ≡ (if ltb 8 (10 ^ 18) then some (ok_word ∷ (b'-' ∷ decimal 8) ∷ []) else none))
add-bounds_example = add-bounds 7 (ok_word ∷ [])

get_runs : reply_get (pos 0) (some ok_word) none [] ≡ not_found_word ∷ []
unfolding reply_get push_back
get_runs = refl
