-- ===== src/Prelude/Text.antt =====
-- Rust's `str`: characters, bytes of UTF-8, trimming and ASCII classes.
use Prim.Native.Nat.{ℕ, zero, suc, ◌+◌, ◌-◌}
use Prim.Native.Char.{Char, code}
use Prim.Native.String.{String, char_at}
use mathlib.Core.Bool.{Bool, true, false, ◌&&◌, ◌||◌}
use mathlib.Core.List.{List, [], ◌∷◌}
use arc_admin.Prelude.Tests.{ltb, leb, nat_beq, if◌then◌else◌}

-- `char::is_whitespace`, Unicode's White_Space.
abbrev is_whitespace : ℕ → Bool
is_whitespace c =
    leb 9 c && leb c 13
    || nat_beq c 0x20
    || nat_beq c 0x85
    || nat_beq c 0xa0
    || nat_beq c 0x1680
    || leb 0x2000 c && leb c 0x200a
    || nat_beq c 0x2028
    || nat_beq c 0x2029
    || nat_beq c 0x202f
    || nat_beq c 0x205f
    || nat_beq c 0x3000

-- Bytes of a character in UTF-8.
abbrev utf8_width : ℕ → ℕ
utf8_width c = if ltb c 0x80 then 1 else if ltb c 0x800 then 2 else if ltb c 0x10000 then 3 else 4

-- `str::len`, in bytes.
unfoldable pub byte_len : String → ℕ
byte_len String.[] = 0
byte_len (String.◌∷◌ c s) = utf8_width (code c) + byte_len s

-- `s.chars().count()`
unfoldable pub char_count : String → ℕ
char_count String.[] = 0
char_count (String.◌∷◌ c s) = 1 + char_count s

-- `s.is_empty()`
abbrev pub is_empty : String → Bool
is_empty String.[] = true
is_empty (String.◌∷◌ c s) = false

-- `s.chars().all(p)`
unfoldable pub all_chars : (ℕ → Bool) → String → Bool
all_chars p String.[] = true
all_chars p (String.◌∷◌ c s) = p (code c) && all_chars p s

-- `s.chars().next().is_some_and(p)`
abbrev pub first_char : (ℕ → Bool) → String → Bool
first_char p String.[] = false
first_char p (String.◌∷◌ c s) = p (code c)

trim_start : String → String
trim_start String.[] = String.[]
trim_start (String.◌∷◌ c s) =
    let rest = trim_start s in if is_whitespace (code c) then rest else String.◌∷◌ c s

-- A character in front of a text whose end is trimmed: dropped if it is white and nothing follows.
abbrev put_back : Char → String → String
put_back c String.[] = if is_whitespace (code c) then String.[] else String.◌∷◌ c String.[]
put_back c (String.◌∷◌ d s) = String.◌∷◌ c (String.◌∷◌ d s)

trim_end : String → String
trim_end String.[] = String.[]
trim_end (String.◌∷◌ c s) = put_back c (trim_end s)

-- `str::trim`
unfoldable pub trim : String → String
unfolding trim_start trim_end
trim s = trim_end (trim_start s)

abbrev prepend : Char → List String → List String
prepend c [] = String.◌∷◌ c String.[] ∷ []
prepend c (piece ∷ pieces) = String.◌∷◌ c piece ∷ pieces

-- `s.split(sep)`, by a character: at least one piece.
unfoldable pub split : ℕ → String → List String
split sep String.[] = String.[] ∷ []
split sep (String.◌∷◌ c s) =
    let rest = split sep s in if nat_beq (code c) sep then String.[] ∷ rest else prepend c rest

-- `format!("{a}{b}")`
unfoldable pub concat : String → String → String
concat String.[] t = t
concat (String.◌∷◌ c s) t = String.◌∷◌ c (concat s t)

abbrev pub is_ascii_lowercase : ℕ → Bool
is_ascii_lowercase c = leb b'a' c && leb c b'z'

abbrev pub is_ascii_uppercase : ℕ → Bool
is_ascii_uppercase c = leb b'A' c && leb c b'Z'

abbrev pub is_ascii_digit : ℕ → Bool
is_ascii_digit c = leb b'0' c && leb c b'9'

abbrev pub is_ascii_alphanumeric : ℕ → Bool
is_ascii_alphanumeric c = is_ascii_lowercase c || is_ascii_uppercase c || is_ascii_digit c

abbrev lower : Char → Char
lower c =
    if is_ascii_uppercase (code c) then char_at "abcdefghijklmnopqrstuvwxyz" (code c - b'A') else c

abbrev upper : Char → Char
upper c =
    if is_ascii_lowercase (code c) then char_at "ABCDEFGHIJKLMNOPQRSTUVWXYZ" (code c - b'a') else c

unfoldable pub to_ascii_lowercase : String → String
to_ascii_lowercase String.[] = String.[]
to_ascii_lowercase (String.◌∷◌ c s) = String.◌∷◌ (lower c) (to_ascii_lowercase s)

unfoldable pub to_ascii_uppercase : String → String
to_ascii_uppercase String.[] = String.[]
to_ascii_uppercase (String.◌∷◌ c s) = String.◌∷◌ (upper c) (to_ascii_uppercase s)

-- `&s[..n]` and `&s[n..]` of ASCII
unfoldable pub first_chars : ℕ → String → String
first_chars zero s = String.[]
first_chars (suc n) String.[] = String.[]
first_chars (suc n) (String.◌∷◌ c s) = String.◌∷◌ c (first_chars n s)

unfoldable pub rest_chars : ℕ → String → String
rest_chars zero s = s
rest_chars (suc n) String.[] = String.[]
rest_chars (suc n) (String.◌∷◌ c s) = rest_chars n s
