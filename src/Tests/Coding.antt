-- ===== src/Tests/Coding.antt =====
-- Examples of the codings: tokens, secrets, scopes and errors.
use arc_admin.Prelude.{
  nat_eq, string_eq, List, Result, String, [], arith, err, none, ok, refl, some, true, ℕ, ◌↔◌, ◌∷◌,
  ◌≡◌, ◌≢◌, ◌≤◌,
}
use arc_admin.Access.{organization, department, can_grant, from_database, as_str}
use arc_admin.Access.Grants.{reach, can_grant-reach}
use arc_admin.Access.Codec.{from_database-as_str}
use arc_admin.Error.{internal, conflict, into_response}
use arc_admin.Error.Responses.{into_response-server_error}
use arc_admin.Auth.Token.{hex, random_token}
use arc_admin.Auth.Token.Hex.{AllBytes, unhex, unhex-hex}
use arc_admin.Auth.Csrf.{full_length}
use arc_admin.Service.StepUp.{presented}
use arc_admin.Service.StepUp.Tokens.{random_token-presented}
use arc_admin.Mfa.{encrypt_totp_secret, decrypt_totp_secret}
use arc_admin.Mfa.Secrets.{decrypt-encrypt, decrypt-encrypt_other}
use arc_admin.Tests.Externals.{toy, toy-IsAead}

abbrev pub sample_bytes : List ℕ
sample_bytes =
    0 ∷ 17 ∷ 34 ∷ 51 ∷ 68 ∷ 85 ∷ 102 ∷ 119 ∷ 136 ∷ 153 ∷ 170 ∷ 187 ∷ 204 ∷ 221 ∷ 238 ∷ 255 ∷ 1 ∷ 2
    ∷ 3 ∷ 4 ∷ 5 ∷ 6 ∷ 7 ∷ 8 ∷ 9 ∷ 10 ∷ 11 ∷ 12 ∷ 13 ∷ 14 ∷ 15 ∷ 16 ∷ []

pub sample-AllBytes : AllBytes sample_bytes
sample-AllBytes = ground arith

unhex-hex_example : unhex (hex sample_bytes) ≡ sample_bytes
unhex-hex_example = unhex-hex sample_bytes sample-AllBytes

another : sample_bytes ≢ []
another e = cc

random_token-presented_example :
    (random_token sample_bytes ≢ random_token [])
    × (full_length (some (random_token sample_bytes)) ≡ some (random_token sample_bytes))
    × (presented (some (random_token sample_bytes)) ≡ some (random_token sample_bytes))
random_token-presented_example =
    random_token-presented sample_bytes [] sample-AllBytes tt refl another

can_grant-reach_example :
    (can_grant organization department ≡ true) ↔ (reach department ≤ reach organization)
can_grant-reach_example = can_grant-reach organization department

from_database-as_str_example :
    (from_database "organization" ≡ some organization) ↔ ("organization" ≡ as_str organization)
from_database-as_str_example = from_database-as_str "organization" organization

into_response-server_error_example :
    (500 ≤ (into_response none (conflict "taken")).status)
    ↔ ((cause : String) × (conflict "taken" ≡ internal cause))
into_response-server_error_example = into_response-server_error none (conflict "taken")

abbrev nonce : List ℕ
nonce = 1 ∷ 2 ∷ 3 ∷ 4 ∷ 5 ∷ 6 ∷ 7 ∷ 8 ∷ 9 ∷ 10 ∷ 11 ∷ 12 ∷ []

abbrev bytes_of : Result String (List ℕ) → List ℕ
bytes_of (ok bytes) = bytes
bytes_of (err e) = []

abbrev pub stored_secret : List ℕ
stored_secret = bytes_of (encrypt_totp_secret toy nonce 1 (42 ∷ 43 ∷ []))

encrypted : encrypt_totp_secret toy nonce 1 (42 ∷ 43 ∷ []) ≡ ok stored_secret
unfolding encrypt_totp_secret
encrypted = refl

decrypt-encrypt_example : decrypt_totp_secret toy 1 stored_secret ≡ ok (42 ∷ 43 ∷ [])
decrypt-encrypt_example =
    decrypt-encrypt toy toy-IsAead nonce 1 (42 ∷ 43 ∷ []) stored_secret refl encrypted

decrypt-encrypt_other_example :
    decrypt_totp_secret toy 2 stored_secret ≡ err "failed to decrypt MFA secret"
decrypt-encrypt_other_example =
    decrypt-encrypt_other toy toy-IsAead nonce 1 2 (42 ∷ 43 ∷ []) stored_secret refl (omega arith)
      (omega arith) (omega arith) encrypted
