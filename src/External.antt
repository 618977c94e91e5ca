-- ===== src/External.antt =====
-- What the backend calls and does not implement, as a parameter: SHA-256, Argon2, AES-256-GCM and
-- the TOTP check of the crates it uses. The laws that a theorem needs of them are its hypotheses.
use arc_admin.Prelude.{nat_eq, Bool, List, Option, Result, String, ℕ}

-- The result of a WebAuthn authentication: the id of the passkey that was used, `needs_update`, and
-- `update_credential` on a passkey's text.
pub record AuthenticationResult : Type 0 where
  pub used_id : List ℕ
  pub needs_update : Bool
  pub update_credential : String → String

pub record External : Type 0 where
  -- `Sha256::digest` of a text's bytes
  pub sha256 : String → List ℕ
  -- `PasswordHash::new(hash)` parses
  pub is_password_hash : String → Bool
  -- `Argon2::default().verify_password(password, hash).is_ok()`
  pub argon2_verify : String → String → Bool
  -- `hash_password_with_salt`, by salt and password
  pub argon2_hash : List ℕ → String → Result String String
  -- `cipher.encrypt` and `cipher.decrypt`, by nonce, associated data and message
  pub aead_encrypt : List ℕ → List ℕ → List ℕ → Option (List ℕ)
  pub aead_decrypt : List ℕ → List ℕ → List ℕ → Option (List ℕ)
  -- `Builder…build()` and then `check_current`, by step, secret, account, code and time: the
  -- matching counter
  pub totp_check : ℕ → List ℕ → String → String → ℕ → Result String (Option ℕ)
  -- the secret in base32, the URI and the QR code of a new TOTP, by step, secret and account
  pub totp_enrollment : ℕ → List ℕ → String → Result String (String × String × String)
  -- base64's `STANDARD.encode` and `decode`, and `URL_SAFE_NO_PAD.encode`
  pub base64_encode : List ℕ → String
  pub base64_decode : String → Option (List ℕ)
  pub base64_url_encode : List ℕ → String
  -- Argon2 with the small profile of recovery codes, by salt and code
  pub recovery_hash : List ℕ → String → Result String String
  -- webauthn-rs, on the texts of its passkeys, challenges and states; the first argument of a start
  -- is its randomness. A start gives the challenge for the browser and the state to keep.
  pub start_authentication : List ℕ → List String → Result String (String × String)
  -- `from_value` of the credential and then `finish_passkey_authentication`
  pub finish_authentication : String → String → Option AuthenticationResult
  pub start_registration :
      List ℕ → String → String → String → List (List ℕ) → Result String (String × String)
  -- `from_value` of the credential
  pub parse_registration : String → Result String String
  pub finish_registration : String → String → Option String
  -- `Passkey::cred_id`
  pub cred_id : String → List ℕ
