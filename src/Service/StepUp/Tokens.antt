-- ===== src/Service/StepUp/Tokens.antt =====
-- The tokens that `random_token` of backend/src/auth.rs writes, at the checks of what a request
-- presents (backend/src/auth.rs, backend/src/services/step_up.rs).
use arc_admin.Prelude.{nat_eq, string_eq, List, byte_len, length, some, ℕ, ◌≡◌, ◌≢◌}
use arc_admin.Auth.Token.{random_token}
use arc_admin.Auth.Token.Hex.{AllBytes, hex_injective, random_token-length}
use arc_admin.Auth.Csrf.{full_length}
use arc_admin.Service.StepUp.{presented}

-- A token of 32 random bytes differs from the token of any other bytes, and passes the checks of the
-- length of a session cookie, of a CSRF header and cookie, and of a step-up header.
pub random_token-presented :
    (bytes other : List ℕ)
    → AllBytes bytes
    → AllBytes other
    → length bytes ≡ 32
    → bytes ≢ other
    → (random_token bytes ≢ random_token other)
      × (full_length (some (random_token bytes)) ≡ some (random_token bytes))
      × (presented (some (random_token bytes)) ≡ some (random_token bytes))
unfolding random_token
random_token-presented bytes other small small' size apart =
    let long : byte_len (random_token bytes) ≡ 64 = random_token-length bytes small size in
    (λ same. apart (hex_injective bytes other small small' same), rw long, rw long)
