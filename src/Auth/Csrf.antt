-- ===== src/Auth/Csrf.antt =====
-- `validate_csrf` of backend/src/auth.rs, with the names of the cookies.
use arc_admin.Prelude.{
  nat_eq, string_eq, Bool, Option, String, byte_len, fail_if, false, if◌then◌else◌, not, ok, ok_or,
  true, ◌==◌, ◌>>=◌, ◌||◌,
}
use arc_admin.External.{External}
use arc_admin.Error.{Api, csrf_invalid}
use arc_admin.Auth.Http.{Method, get, head, options, Request, header, cookie, filter}
use arc_admin.Auth.Token.{token_hash}

abbrev pub session_cookie_name : Bool → String
session_cookie_name secure = if secure then "__Host-arc_session" else "arc_session"

abbrev pub csrf_cookie_name : Bool → String
csrf_cookie_name secure = if secure then "__Host-arc_csrf" else "arc_csrf"

-- `.filter(|value| value.len() == 64)`
abbrev pub full_length : Option String → Option String
full_length = filter (λ value. byte_len value == 64)

abbrev pub is_safe : Method → Bool
is_safe get = true
is_safe head = true
is_safe options = true
is_safe _ = false

-- `ct_eq` compares the bytes in constant time; the model sees its result.
unfoldable pub validate_csrf : External → Bool → Request → String → Api (Unit {0})
unfolding header cookie token_hash
validate_csrf ext secure req expected_hash = if is_safe req.method then ok tt else do
  header_token ← ok_or (full_length (header req.headers "x-csrf-token")) csrf_invalid
  cookie_token ← ok_or (full_length (cookie req.cookies (csrf_cookie_name secure))) csrf_invalid
  let values_match = header_token == cookie_token
  let hash_matches = token_hash ext header_token == expected_hash
  fail_if (not values_match || not hash_matches) csrf_invalid
