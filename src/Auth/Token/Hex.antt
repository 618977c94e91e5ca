-- ===== src/Auth/Token/Hex.antt =====
-- The hexadecimal coding of bytes loses nothing, and fixes the length of a token.
use Prim.Native.Char.{code}
use arc_admin.Prelude.{
  nat_eq, Bool, List, String, [], ap, arith, byte_len, if◌then◌else◌, length, ltb, nat_beq_iff,
  refl, suc, sym, true, zero, ℕ, ◌%◌, ◌&&◌, ◌*◌, ◌+◌, ◌-◌, ◌/◌, ◌<◌, ◌==◌, ◌∙◌, ◌∷◌, ◌≡◌,
}
use arc_admin.Auth.Token.{hex_digit, hex, random_token}

-- A test of every digit value, from the top down.
holds_below : (ℕ → Bool) → ℕ → Bool
holds_below test zero = true
holds_below test (suc top) = holds_below test top && test top

holds_below-at :
    (test : ℕ → Bool) (top d : ℕ) → d < top → holds_below test top ≡ true → test d ≡ true
unfolding holds_below
holds_below-at test zero d small passed = absurd (omega arith)
holds_below-at test (suc top) d small passed = ground (arith, holds_below-at test top d)

-- The value of a lower-case hexadecimal digit.
abbrev digit_value : ℕ → ℕ
digit_value c = if ltb c 58 then c - 48 else c - 87

digit_table : holds_below (λ n. digit_value (code (hex_digit n)) == n) 16 ≡ true
unfolding holds_below hex_digit
digit_table = refl

width_table : holds_below (λ n. ltb (code (hex_digit n)) 128) 16 ≡ true
unfolding holds_below hex_digit
width_table = refl

hex_digit-value : (n : ℕ) → n < 16 → digit_value (code (hex_digit n)) ≡ n
hex_digit-value n h = (nat_beq_iff _ n).0 (holds_below-at _ 16 n h digit_table)

-- An independent reading of a hexadecimal text: two digits make a byte.
unfoldable pub unhex : String → List ℕ
unhex String.[] = []
unhex (String.◌∷◌ c String.[]) = []
unhex (String.◌∷◌ c (String.◌∷◌ d s)) = (digit_value (code c) * 16 + digit_value (code d)) ∷ unhex s

abbrev pub AllBytes : List ℕ → Type 0
AllBytes [] = Unit
AllBytes (b ∷ bs) = (b < 256) × AllBytes bs

-- Reading what `hex` wrote gives the bytes back.
pub unhex-hex : (bytes : List ℕ) → AllBytes bytes → unhex (hex bytes) ≡ bytes
unfolding hex unhex
unhex-hex [] h = refl
unhex-hex (b ∷ bs) h =
    let high = hex_digit-value (b / 16) (omega arith) in
    let low = hex_digit-value (b % 16) (omega arith) in
    rw (high, low, unhex-hex bs h.1) (ground arith)

-- Two digits to a byte, each of one byte of UTF-8.
pub byte_len-hex : (bytes : List ℕ) → AllBytes bytes → byte_len (hex bytes) ≡ 2 * length bytes
unfolding hex byte_len
byte_len-hex [] h = refl
byte_len-hex (b ∷ bs) h =
    let high = holds_below-at _ 16 (b / 16) (omega arith) width_table in
    let low = holds_below-at _ 16 (b % 16) (omega arith) width_table in
    rw (high, low) (omega (arith, byte_len-hex bs h.1))

-- a token of 32 bytes
pub random_token-length :
    (bytes : List ℕ) → AllBytes bytes → length bytes ≡ 32 → byte_len (random_token bytes) ≡ 64
unfolding random_token
random_token-length bytes h n = omega (arith, byte_len-hex bytes h)

pub hex_injective : (a b : List ℕ) → AllBytes a → AllBytes b → hex a ≡ hex b → a ≡ b
hex_injective a b ha hb e = sym (unhex-hex a ha) ∙ ap unhex e ∙ unhex-hex b hb
