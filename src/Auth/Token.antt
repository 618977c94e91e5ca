-- ===== src/Auth/Token.antt =====
-- Tokens and their hashes: `hex`, `random_token` and `token_hash` of backend/src/auth.rs.
pub mod Hex
use Prim.Native.Char.{Char}
use arc_admin.Prelude.{nat_eq, List, String, [], if◌then◌else◌, ℕ, ◌%◌, ◌/◌, ◌==◌, ◌∷◌}
use arc_admin.External.{External}

-- `{:x}` of a number below 16.
hex_digit : ℕ → Char
hex_digit n =
    if n == 0
    then "0"
    else if n == 1
    then "1"
    else if n == 2
    then "2"
    else if n == 3
    then "3"
    else if n == 4
    then "4"
    else if n == 5
    then "5"
    else if n == 6
    then "6"
    else if n == 7
    then "7"
    else if n == 8
    then "8"
    else if n == 9
    then "9"
    else if n == 10
    then "a"
    else if n == 11
    then "b"
    else if n == 12
    then "c"
    else if n == 13
    then "d"
    else if n == 14
    then "e"
    else "f"

-- Two digits for each byte.
unfoldable pub hex : List ℕ → String
unfolding hex_digit
hex [] = String.[]
hex (byte ∷ bytes) =
    String.◌∷◌ (hex_digit (byte / 16)) (String.◌∷◌ (hex_digit (byte % 16)) (hex bytes))

-- `bytes` are the 32 bytes of the operating system's random source.
unfoldable pub random_token : List ℕ → String
random_token bytes = hex bytes

unfoldable pub token_hash : External → String → String
token_hash ext token = hex (ext.sha256 token)
