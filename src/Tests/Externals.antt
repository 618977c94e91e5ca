-- ===== src/Tests/Externals.antt =====
-- A concrete choice of what the backend calls: it is no cryptography, but it satisfies what the
-- theorems ask of the crates.
use arc_admin.Prelude.{
  nat_eq, string_eq, Bool-cases, List, Option, [], ap, arith, byte_len, drop, false, if◌then◌else◌,
  inl, inr, length, nat_beq_iff, none, ok, refl, some, sym, true, ℕ, ◌++◌, ◌+◌, ◌==◌, ◌∷◌, ◌≡◌, ◌≢◌,
  ◌≤◌,
}
use arc_admin.External.{External}
use arc_admin.Auth.Token.{hex}
use arc_admin.Auth.Token.Hex.{unhex}
use arc_admin.Mfa.Secrets.{IsAead}

abbrev tag : List ℕ
tag = 0 ∷ 0 ∷ 0 ∷ 0 ∷ 0 ∷ 0 ∷ 0 ∷ 0 ∷ 0 ∷ 0 ∷ 0 ∷ 0 ∷ 0 ∷ 0 ∷ 0 ∷ 0 ∷ []

abbrev seal : List ℕ → List ℕ → List ℕ
seal aad msg = length aad ∷ aad ++ (tag ++ msg)

-- The rest of a list after a prefix.
abbrev strip : List ℕ → List ℕ → Option (List ℕ)
strip [] xs = some xs
strip (p ∷ ps) [] = none
strip (p ∷ ps) (x ∷ xs) = if p == x then strip ps xs else none

abbrev without_tag : Option (List ℕ) → Option (List ℕ)
without_tag none = none
without_tag (some xs) = some (drop 16 xs)

abbrev pub toy : External
toy = record {
  sha256 = λ s. byte_len s ∷ 7 ∷ [];
  is_password_hash = λ hash. true;
  argon2_verify = λ password hash. password == hash;
  argon2_hash = λ salt password. ok password;
  aead_encrypt = λ nonce aad msg. some (seal aad msg);
  aead_decrypt = λ nonce aad sealed. without_tag (strip (length aad ∷ aad) sealed);
  totp_check = λ step secret account code now. ok (if code == "123456" then some 9 else none);
  totp_enrollment = λ step secret account. ok ("GEZDGNBV", "otpauth://totp/Arc", "iVBORw0KGgo");
  base64_encode = hex;
  base64_decode = λ t. some (unhex t);
  base64_url_encode = hex;
  recovery_hash = λ salt code. ok code;
  start_authentication = λ entropy credentials. ok ("{}", "pending");
  finish_authentication = λ credential state.
      if credential == "key one"
      then some (record {
        used_id = 1 ∷ [];
        needs_update = false;
        update_credential = λ passkey. passkey;
      })
      else none;
  start_registration = λ entropy uuid name display exclude. ok ("{}", "registering");
  parse_registration = λ credential. ok credential;
  finish_registration = λ credential state. some credential;
  cred_id = λ passkey. 1 ∷ [];
}

strip-append : (ps xs : List ℕ) → strip ps (ps ++ xs) ≡ some xs
strip-append [] xs = refl
strip-append (p ∷ ps) xs = ground (arith, nat_beq_iff p p, strip-append ps xs)

strip-other : (ps qs xs : List ℕ) → length ps ≡ length qs → ps ≢ qs → strip ps (qs ++ xs) ≡ none
strip-other [] [] xs h ne = absurd (ne refl)
strip-other [] (q ∷ qs) xs h ne = absurd (omega arith)
strip-other (p ∷ ps) [] xs h ne = absurd (omega arith)
strip-other (p ∷ ps) (q ∷ qs) xs h ne = elim (Bool-cases (p == q)) [
  | inl same ↦
      rw same (strip-other ps qs xs (omega arith) (λ e. ne (rw ((nat_beq_iff p q).0 same, e))))
  | inr other ↦ rw other
]

length-append : (xs ys : List ℕ) → length (xs ++ ys) ≡ length xs + length ys
length-append [] ys = omega arith
length-append (x ∷ xs) ys = omega (arith, length-append xs ys)

sealed-seal :
    (aad msg sealed : List ℕ) → toy.aead_encrypt [] aad msg ≡ some sealed → seal aad msg ≡ sealed
sealed-seal aad msg sealed e = ground arith

strip-bound :
    (aad other xs : List ℕ)
    → aad ≢ other
    → strip (length other ∷ other) (length aad ∷ aad ++ xs) ≡ none
strip-bound aad other xs ne = elim (Bool-cases (length other == length aad)) [
  | inl same ↦ rw same (
      strip-other other aad xs ((nat_beq_iff (length other) (length aad)).0 same) (λ e. ne (sym e)))
  | inr differ ↦ rw differ
]

length-seal : (aad msg : List ℕ) → length msg + 16 ≤ length (seal aad msg)
length-seal aad msg = omega (arith, length-append aad (tag ++ msg))

pub toy-IsAead : IsAead toy
toy-IsAead = record {
  opens = λ nonce aad msg sealed e.
      rw (sym (sealed-seal aad msg sealed e))
        (ap without_tag (strip-append (length aad ∷ aad) (tag ++ msg)));
  tagged = λ nonce aad msg sealed e. rw (sym (sealed-seal aad msg sealed e)) (length-seal aad msg);
  bound = λ nonce aad other msg sealed e ne.
      rw (sym (sealed-seal aad msg sealed e))
        (ap without_tag (strip-bound aad other (tag ++ msg) ne));
}
