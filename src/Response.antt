-- ===== src/Response.antt =====
-- server-5204/resp.h and resp.cpp: class Response, the strings of a reply. Its state is `resp`, the vector
-- of strings. `sprintf` into an array that is too small is a result of its own.
pub mod Replies
use expert_spoon.Prelude.{
  ℕ, zero, suc, ◌+◌, Bool, true, false, Option, none, some, List, [], ◌∷◌, ◌++◌, Str, ltb, ◌==◌,
  if◌then◌else◌, length,
}
use expert_spoon.Prelude.Decimal.{decimal}

-- A number with a sign: `negsuc n` is -(n + 1).
pub data ℤ : Type 0 where
  pos : ℕ → ℤ
  negsuc : ℕ → ℤ

-- sprintf("%" PRId64)
abbrev pub printed : ℤ → Str
printed (pos n) = decimal n
printed (negsuc n) = b'-' ∷ decimal (n + 1)

-- char buf[20]
abbrev pub buf_size : ℕ
buf_size = 20

-- The text with the byte that ends it is written to `buf` and pushed; `none` where it does not fit.
unfoldable pub push_printed : Str → List Str → Option (List Str)
push_printed text resp = if ltb buf_size (length text + 1) then none else some (resp ++ text ∷ [])

unfoldable pub add_int64 : ℤ → List Str → Option (List Str)
add_int64 s resp = push_printed (printed s) resp

unfoldable pub add_uint64 : ℕ → List Str → Option (List Str)
add_uint64 s resp = push_printed (decimal s) resp

-- push_back and add(const std::string &)
unfoldable pub push_back : Str → List Str → List Str
push_back s resp = resp ++ s ∷ []

abbrev pub ok_word : Str
ok_word = b'o' ∷ b'k' ∷ []

abbrev pub error_word : Str
error_word = b'e' ∷ b'r' ∷ b'r' ∷ b'o' ∷ b'r' ∷ []

abbrev pub not_found_word : Str
not_found_word = b'n' ∷ b'o' ∷ b't' ∷ b'_' ∷ b'f' ∷ b'o' ∷ b'u' ∷ b'n' ∷ b'd' ∷ []

-- status == -1 and status == 0
abbrev pub is_failure : ℤ → Bool
is_failure (pos n) = false
is_failure (negsuc n) = n == 0

abbrev pub is_zero : ℤ → Bool
is_zero (pos n) = n == 0
is_zero (negsuc n) = false

-- if(errmsg){ resp.push_back(errmsg); }
abbrev pub push_message : Option Str → List Str → List Str
push_message none resp = resp
push_message (some m) resp = push_back m resp

unfoldable pub reply_status : ℤ → Option Str → List Str → List Str
unfolding push_back
reply_status status errmsg resp =
    if is_failure status
    then push_message errmsg (push_back error_word resp)
    else push_back ok_word resp

unfoldable pub reply_bool : ℤ → Option Str → List Str → List Str
unfolding push_back
reply_bool status errmsg resp =
    if is_failure status
    then push_message errmsg (push_back error_word resp)
    else if is_zero status
    then push_back (b'0' ∷ []) (push_back ok_word resp)
    else push_back (b'1' ∷ []) (push_back ok_word resp)

unfoldable pub reply_int : ℤ → ℤ → List Str → Option (List Str)
unfolding push_back
reply_int status val resp =
    if is_failure status
    then some (push_back error_word resp)
    else add_int64 val (push_back ok_word resp)

unfoldable pub reply_get : ℤ → Option Str → Option Str → List Str → List Str
unfolding push_back
reply_get status val errmsg resp =
    if is_failure status
    then push_message errmsg (push_back error_word resp)
    else if is_zero status
    then push_message errmsg (push_back not_found_word resp)
    else push_message val (push_back ok_word resp)

unfoldable pub push_all : List Str → List Str → List Str
unfolding push_back
push_all [] resp = resp
push_all (s ∷ list) resp = push_all list (push_back s resp)

unfoldable pub reply_list : ℤ → List Str → List Str → List Str
unfolding push_back push_all
reply_list status list resp =
    if is_failure status then push_back error_word resp else push_all list (push_back ok_word resp)
