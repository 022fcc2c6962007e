-- ===== src/Response/Replies.antt =====
-- What the replies append, and the numbers that do not fit (server-5204/resp.cpp).
use expert_spoon.Prelude.{
  ℕ, ◌+◌, ◌^◌, ◌≤◌, ◌≡◌, refl, sym, ◌∙◌, inl, inr, Option, none, some, List, [], ◌∷◌, ◌++◌, Str,
  arith, ltb, ltb→lt, ltb→le, le→ltb, lt→ltb, if◌then◌else◌, length, Bool-cases, append_assoc,
  append-nil,
}
use expert_spoon.Prelude.Decimal.{decimal, length-decimal_le, length-decimal_ge}
use expert_spoon.Response.{
  ℤ, pos, negsuc, buf_size, push_printed, add_int64, add_uint64, push_back, push_message, push_all,
  ok_word, error_word, not_found_word, is_failure, is_zero, reply_status, reply_bool, reply_get,
  reply_list,
}

push_fits :
    (text : Str) (resp : List Str)
    → length text ≤ 19
    → push_printed text resp ≡ some (resp ++ text ∷ [])
unfolding push_printed
push_fits text resp h = rw (le→ltb buf_size (length text + 1) (omega (arith, h)), push_printed) refl

push_too_long : (text : Str) (resp : List Str) → 20 ≤ length text → push_printed text resp ≡ none
unfolding push_printed
push_too_long text resp h =
    rw (lt→ltb buf_size (length text + 1) (omega (arith, h)), push_printed) refl

uint64_room :
    (n : ℕ) (resp : List Str)
    → push_printed (decimal n) resp
      ≡ (if ltb n (10 ^ 19) then some (resp ++ decimal n ∷ []) else none)
uint64_room n resp = elim (Bool-cases (ltb n (10 ^ 19))) [
  | inl e ↦
      rw e
        (push_fits (decimal n) resp (length-decimal_le 19 n (omega arith) (ltb→lt n (10 ^ 19) e)))
  | inr e ↦
      let large = ltb→le n (10 ^ 19) e in
      rw e (
        push_too_long (decimal n) resp
          (omega (arith, length-decimal_ge 19 n (omega (arith, large)) large)))
]

negative_room :
    (n : ℕ) (resp : List Str)
    → push_printed (b'-' ∷ decimal (n + 1)) resp
      ≡ (if ltb (n + 1) (10 ^ 18) then some (resp ++ (b'-' ∷ decimal (n + 1)) ∷ []) else none)
negative_room n resp = elim (Bool-cases (ltb (n + 1) (10 ^ 18))) [
  | inl e ↦ rw e (
      push_fits (b'-' ∷ decimal (n + 1)) resp
        (omega (arith, length-decimal_le 18 (n + 1) (omega arith) (ltb→lt (n + 1) (10 ^ 18) e))))
  | inr e ↦
      let large = ltb→le (n + 1) (10 ^ 18) e in
      rw e (
        push_too_long (b'-' ∷ decimal (n + 1)) resp
          (omega (arith, length-decimal_ge 18 (n + 1) (omega arith) large)))
]

-- `add` on 64-bit numbers pushes the decimal text where it and its end fit the 20 bytes of the
-- array, and writes past the array otherwise: for an unsigned number, or one that is not negative,
-- from 10^19 on, and for a negative one from -10^18 down.
pub add-bounds :
    (n : ℕ) (resp : List Str)
    → (add_uint64 n resp ≡ (if ltb n (10 ^ 19) then some (resp ++ decimal n ∷ []) else none))
      × (add_int64 (pos n) resp ≡ (if ltb n (10 ^ 19) then some (resp ++ decimal n ∷ []) else none))
      × (add_int64 (negsuc n) resp
          ≡ (if ltb (n + 1) (10 ^ 18) then some (resp ++ (b'-' ∷ decimal (n + 1)) ∷ []) else none))
unfolding add_uint64 add_int64
add-bounds n resp = (uint64_room n resp, uint64_room n resp, negative_room n resp)

push_all-append : (list resp : List Str) → push_all list resp ≡ resp ++ list
unfolding push_all push_back
push_all-append [] resp = sym (append-nil resp)
push_all-append (s ∷ list) resp =
    push_all-append list (resp ++ s ∷ []) ∙ append_assoc resp (s ∷ []) list

pub reply_list-append :
    (status : ℤ) (list resp : List Str)
    → reply_list status list resp
      ≡ resp ++ (if is_failure status then error_word ∷ [] else ok_word ∷ list)
unfolding reply_list push_back
reply_list-append status list resp = elim (Bool-cases (is_failure status)) [
  | inl e ↦ rw e refl
  | inr e ↦
      rw e (push_all-append list (resp ++ ok_word ∷ []) ∙ append_assoc resp (ok_word ∷ []) list)
]

-- The strings that an optional message adds.
abbrev pub told : Option Str → List Str
told none = []
told (some m) = m ∷ []

push_message-append :
    (m : Option Str) (w : Str) (resp : List Str)
    → push_message m (resp ++ w ∷ []) ≡ resp ++ w ∷ told m
unfolding push_back
push_message-append none w resp = refl
push_message-append (some m) w resp = append_assoc resp (w ∷ []) (m ∷ [])

-- What each reply appends, by its status.
abbrev pub status_words : ℤ → Option Str → List Str
status_words status errmsg = if is_failure status then error_word ∷ told errmsg else ok_word ∷ []

abbrev pub bool_words : ℤ → Option Str → List Str
bool_words status errmsg =
    if is_failure status
    then error_word ∷ told errmsg
    else if is_zero status
    then ok_word ∷ (b'0' ∷ []) ∷ []
    else ok_word ∷ (b'1' ∷ []) ∷ []

abbrev pub get_words : ℤ → Option Str → Option Str → List Str
get_words status val errmsg =
    if is_failure status
    then error_word ∷ told errmsg
    else if is_zero status
    then not_found_word ∷ told errmsg
    else ok_word ∷ told val

-- Every form of reply without a number keeps the strings that are there and appends the word of the
-- status (error, ok or not_found) and behind it what belongs to the status: the message, the flag,
-- the value or the list.
pub replies-append :
    (status : ℤ) (val errmsg : Option Str) (list resp : List Str)
    → (reply_status status errmsg resp ≡ resp ++ status_words status errmsg)
      × (reply_bool status errmsg resp ≡ resp ++ bool_words status errmsg)
      × (reply_get status val errmsg resp ≡ resp ++ get_words status val errmsg)
      × (reply_list status list resp
          ≡ resp ++ (if is_failure status then error_word ∷ [] else ok_word ∷ list))
unfolding reply_status reply_bool reply_get push_back
replies-append status val errmsg list resp = elim (Bool-cases (is_failure status)) [
  | inl e ↦ (
    rw e (push_message-append errmsg error_word resp),
    rw e (push_message-append errmsg error_word resp),
    rw e (push_message-append errmsg error_word resp),
    reply_list-append status list resp,
  )
  | inr e ↦ elim (Bool-cases (is_zero status)) [
    | inl z ↦ (
      rw e refl,
      rw (e, z) (append_assoc resp (ok_word ∷ []) ((b'0' ∷ []) ∷ [])),
      rw (e, z) (push_message-append errmsg not_found_word resp),
      reply_list-append status list resp,
    )
    | inr z ↦ (
      rw e refl,
      rw (e, z) (append_assoc resp (ok_word ∷ []) ((b'1' ∷ []) ∷ [])),
      rw (e, z) (push_message-append val ok_word resp),
      reply_list-append status list resp,
    )
  ]
]
