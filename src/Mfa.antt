-- ===== src/Mfa.antt =====
-- backend/src/mfa.rs: the encryption of TOTP secrets. The construction of the WebAuthn relying
-- party and of the cipher is not modelled.
pub mod Secrets
use arc_admin.Prelude.{
  nat_eq, Bool, List, Result, String, [], drop, fail_if, false, leb, length, not, ok, ok_or, suc,
  take, zero, ℕ, ◌%◌, ◌++◌, ◌+◌, ◌/◌, ◌==◌, ◌>>=◌, ◌>>◌, ◌||◌, ◌∷◌,
}
use arc_admin.External.{External}

abbrev pub nonce_length : ℕ
nonce_length = 12

abbrev pub ciphertext_version : ℕ
ciphertext_version = 1

be_bytes : ℕ → ℕ → List ℕ → List ℕ
be_bytes zero n low = low
be_bytes (suc k) n low = be_bytes k (n / 256) ((n % 256) ∷ low)

-- `user_id.to_be_bytes()`
unfoldable pub to_be_bytes : ℕ → List ℕ
unfolding be_bytes
to_be_bytes n = be_bytes 8 n []

-- `nonce` is the 12 random bytes of the call.
unfoldable pub encrypt_totp_secret : External → List ℕ → ℕ → List ℕ → Result String (List ℕ)
encrypt_totp_secret ext nonce user_id secret = do
  ciphertext ←
      ok_or (ext.aead_encrypt nonce (to_be_bytes user_id) secret) "failed to encrypt MFA secret"
  ok (ciphertext_version ∷ nonce ++ ciphertext)

abbrev starts_with_version : List ℕ → Bool
starts_with_version [] = false
starts_with_version (b ∷ bs) = b == ciphertext_version

unfoldable pub decrypt_totp_secret : External → ℕ → List ℕ → Result String (List ℕ)
decrypt_totp_secret ext user_id encoded = do
  fail_if (leb (length encoded) (1 + nonce_length) || not (starts_with_version encoded))
      "invalid encrypted MFA secret"
  ok_or
      (ext.aead_decrypt (take nonce_length (drop 1 encoded)) (to_be_bytes user_id)
        (drop (1 + nonce_length) encoded))
      "failed to decrypt MFA secret"
