-- ===== src/Service/Users/Requests.antt =====
-- The requests of backend/src/services/users.rs, and the checks of their fields.
use arc_admin.Prelude.{
  string_eq, nat_eq, Bool, List, Option, String, all_chars, byte_len, fail_if, false, if◌then◌else◌,
  is_ascii_alphanumeric, is_empty, leb, ltb, none, not, ok, some, trim, true, ℕ, ◌&&◌, ◌==◌, ◌>>=◌,
  ◌>>◌, ◌||◌,
}
use arc_admin.Error.{Api, validation}

pub record CreateUserRequest : Type 0 where
  pub username : String
  pub password : String
  pub display_name : String
  pub email : Option String
  pub status : Option String
  pub department_id : Option ℕ
  pub role_ids : Option (List ℕ)

-- `NullablePatch` of backend/src/models.rs
pub data NullablePatch : Type 0 where
  missing cleared : NullablePatch
  given : String → NullablePatch

unfoldable pub nullable_patch : NullablePatch → Bool × Option String
nullable_patch missing = (false, none)
nullable_patch cleared = (true, none)
nullable_patch (given v) = (true, some v)

pub record UpdateUserRequest : Type 0 where
  pub display_name : Option String
  pub email : NullablePatch
  pub status : Option String
  pub department_id : Option ℕ
  pub password : Option String

abbrev pub is_user_status : String → Bool
is_user_status status = status == "active" || status == "inactive" || status == "suspended"

abbrev is_username_char : ℕ → Bool
is_username_char c = is_ascii_alphanumeric c || c == b'_' || c == b'-'

unfoldable pub validate_username : String → Api String
validate_username value = do
  let username = trim value
  fail_if (not (leb 3 (byte_len username) && leb (byte_len username) 64))
      (validation "用户名长度需在 3-64 个字符之间")
  fail_if (not (all_chars is_username_char username)) (validation "用户名仅允许字母、数字、下划线或连字符")
  ok username

unfoldable pub validate_display_name : String → Api String
validate_display_name value = do
  let display_name = trim value
  fail_if (is_empty display_name || ltb 128 (byte_len display_name))
      (validation "显示名称长度需在 1-128 个字符之间")
  ok display_name

-- A new display name is trimmed and checked.
unfoldable pub updated_name : Option String → Api (Option String)
unfolding validate_display_name
updated_name none = ok none
updated_name (some value) = do display_name ← validate_display_name value; ok (some display_name)

-- A text that is empty once trimmed counts as none.
unfoldable pub trimmed_email : Option String → Option String
trimmed_email none = none
trimmed_email (some value) = if is_empty (trim value) then none else some (trim value)
