-- ===== src/Mfa/Secrets.antt =====
-- A stored secret can be read back, and only for the user for whom it was stored.
use arc_admin.Prelude.{
  nat_eq, List, [], arith, drop, err, false, leb, length, none, ok, ok_or, ok_or-eq-ok, refl, some,
  suc, take, zero, ℕ, ◌++◌, ◌+◌, ◌<◌, ◌^◌, ◌∷◌, ◌≡◌, ◌≢◌, ◌≤◌,
}
use arc_admin.External.{External}
use arc_admin.Mfa.{to_be_bytes, encrypt_totp_secret, decrypt_totp_secret}

-- What AES-GCM documents: opening what was sealed under the same nonce and data gives the message,
-- and the sealed message is longer than nothing by its tag.
pub record IsAead (ext : External) : Type 0 where
  pub opens :
      (nonce aad msg sealed : List ℕ)
      → ext.aead_encrypt nonce aad msg ≡ some sealed
      → ext.aead_decrypt nonce aad sealed ≡ some msg
  pub tagged :
      (nonce aad msg sealed : List ℕ)
      → ext.aead_encrypt nonce aad msg ≡ some sealed
      → length msg + 16 ≤ length sealed
  -- the data is authenticated: no other data opens a sealed message
  pub bound :
      (nonce aad other msg sealed : List ℕ)
      → ext.aead_encrypt nonce aad msg ≡ some sealed
      → aad ≢ other
      → ext.aead_decrypt nonce other sealed ≡ none

take_prefix : (n : ℕ) (xs ys : List ℕ) → length xs ≡ n → take n (xs ++ ys) ≡ xs
take_prefix zero [] ys h = refl
take_prefix zero (x ∷ xs) ys h = absurd (omega arith)
take_prefix (suc n) [] ys h = absurd (omega arith)
take_prefix (suc n) (x ∷ xs) ys h = rw (take_prefix n xs ys (omega arith))

drop_prefix : (n : ℕ) (xs ys : List ℕ) → length xs ≡ n → drop n (xs ++ ys) ≡ ys
drop_prefix zero [] ys h = refl
drop_prefix zero (x ∷ xs) ys h = absurd (omega arith)
drop_prefix (suc n) [] ys h = absurd (omega arith)
drop_prefix (suc n) (x ∷ xs) ys h = drop_prefix n xs ys (omega arith)

length-append : (xs ys : List ℕ) → length (xs ++ ys) ≡ length xs + length ys
length-append [] ys = omega arith
length-append (x ∷ xs) ys = omega (arith, length-append xs ys)

-- A well-formed record is split where it was joined.
decrypt_joined :
    (ext : External) (user_id : ℕ) (nonce sealed : List ℕ)
    → length nonce ≡ 12
    → 0 < length sealed
    → decrypt_totp_secret ext user_id (1 ∷ nonce ++ sealed)
      ≡ ok_or (ext.aead_decrypt nonce (to_be_bytes user_id) sealed) "failed to decrypt MFA secret"
unfolding decrypt_totp_secret
decrypt_joined ext user_id nonce sealed n s =
    let long : leb (suc (length (nonce ++ sealed))) 13 ≡ false =
      ground (arith, length-append nonce sealed) in
    rw (long, take_prefix 12 nonce sealed n, drop_prefix 12 nonce sealed n)

-- Ids of 63 bits, the non-negative `i64`, have distinct bytes.
to_be_bytes_injective : (m n : ℕ) → m < 2 ^ 63 → n < 2 ^ 63 → to_be_bytes m ≡ to_be_bytes n → m ≡ n
unfolding to_be_bytes
to_be_bytes_injective m n hm hn e = ground arith

module _ (ext : External) (aead : IsAead ext) where
  -- With AES-GCM as documented, a 12-byte nonce and whatever `encrypt_totp_secret` returned for a
  -- user, `decrypt_totp_secret` for that user returns the secret.
  pub decrypt-encrypt :
      (nonce : List ℕ) (user_id : ℕ) (secret encoded : List ℕ)
      → length nonce ≡ 12
      → encrypt_totp_secret ext nonce user_id secret ≡ ok encoded
      → decrypt_totp_secret ext user_id encoded ≡ ok secret
  unfolding encrypt_totp_secret
  decrypt-encrypt nonce user_id secret encoded n e =
      let (sealed, p, q) =
        ok_or-eq-ok (ext.aead_encrypt nonce (to_be_bytes user_id) secret) _ _ e in
      let full = aead.tagged nonce (to_be_bytes user_id) secret sealed p in
      let split = decrypt_joined ext user_id nonce sealed n (omega arith) in
      ground (arith, split, aead.opens nonce (to_be_bytes user_id) secret sealed p)

  -- For any other user, of ids below 2^63, it fails.
  pub decrypt-encrypt_other :
      (nonce : List ℕ) (user_id other_id : ℕ) (secret encoded : List ℕ)
      → length nonce ≡ 12
      → user_id < 2 ^ 63
      → other_id < 2 ^ 63
      → user_id ≢ other_id
      → encrypt_totp_secret ext nonce user_id secret ≡ ok encoded
      → decrypt_totp_secret ext other_id encoded ≡ err "failed to decrypt MFA secret"
  unfolding encrypt_totp_secret
  decrypt-encrypt_other nonce user_id other_id secret encoded n hu ho ne e =
      let (sealed, p, q) =
        ok_or-eq-ok (ext.aead_encrypt nonce (to_be_bytes user_id) secret) _ _ e in
      let full = aead.tagged nonce (to_be_bytes user_id) secret sealed p in
      let split = decrypt_joined ext other_id nonce sealed n (omega arith) in
      let refused =
        aead.bound nonce (to_be_bytes user_id) (to_be_bytes other_id) secret sealed p
          (λ same. ne (to_be_bytes_injective user_id other_id hu ho same)) in
      ground (arith, split, refused)
