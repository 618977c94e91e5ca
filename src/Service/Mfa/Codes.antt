-- ===== src/Service/Mfa/Codes.antt =====
-- The recovery codes of backend/src/services/mfa.rs: their text, their hashes and the search.
use arc_admin.Prelude.{
  nat_eq, string_eq, List, Option, String, [], char_count, concat, err, fail_if, first_chars,
  if◌then◌else◌, leb, map, map_err, none, not, ok, rest_chars, some, suc, take, to_ascii_uppercase,
  trim, zero, ℕ, ◌>>=◌, ◌>>◌, ◌∷◌,
}
use arc_admin.External.{External}
use arc_admin.Error.{Api, internal}
use arc_admin.Db.{RecoveryCodeRow}
use arc_admin.Auth.Token.{random_token}

abbrev pub recovery_code_count : ℕ
recovery_code_count = 10

-- `chunks(4)` and `join("-")`; `n` is at least the number of dashes.
unfoldable pub grouped : ℕ → String → String
grouped zero s = s
grouped (suc n) s =
    let rest = grouped n (rest_chars 4 s) in
    if leb (char_count s) 4 then s else concat (first_chars 4 s) (concat "-" rest)

-- By the 32 random bytes of a token.
unfoldable pub generate_recovery_code : List ℕ → String
unfolding grouped random_token
generate_recovery_code bytes = grouped 4 (to_ascii_uppercase (first_chars 20 (random_token bytes)))

-- `generate_recovery_codes`: `draws` are the random bytes of each.
unfoldable pub generate_recovery_codes : List (List ℕ) → List String
unfolding generate_recovery_code
generate_recovery_codes draws = map generate_recovery_code (take recovery_code_count draws)

-- `hash_recovery_codes`, by the salts of the codes.
unfoldable pub hash_recovery_codes : External → List (List ℕ) → List String → Api (List String)
hash_recovery_codes ext salts [] = ok []
hash_recovery_codes ext [] (code ∷ codes) = err (internal "no salt")
hash_recovery_codes ext (salt ∷ salts) (code ∷ codes) = do
  hash ← map_err internal (ext.recovery_hash salt code)
  hashes ← hash_recovery_codes ext salts codes
  ok (hash ∷ hashes)

-- The loop of `matching_recovery_code`.
unfoldable pub find_matching : External → String → List RecoveryCodeRow → Api (Option ℕ)
find_matching ext normalized [] = ok none
find_matching ext normalized (code ∷ codes) =
    let rest = find_matching ext normalized codes in
    do
      fail_if (not (ext.is_password_hash code.code_hash)) (internal "invalid password hash")
      if ext.argon2_verify normalized code.code_hash then ok (some code.id) else rest

unfoldable pub matching_recovery_code : External → String → List RecoveryCodeRow → Api (Option ℕ)
unfolding find_matching
matching_recovery_code ext recovery_code codes =
    find_matching ext (to_ascii_uppercase (trim recovery_code)) codes
