-- ===== src/Auth/Http.antt =====
-- The parts of a request that backend/src/auth.rs reads, as axum and the cookie jar give them.
use arc_admin.Prelude.{
  nat_eq, string_eq, Bool, List, Option, String, [], if◌then◌else◌, none, some, ◌==◌, ◌∷◌,
}

pub data Method : Type 0 where
  get head options post put patch delete : Method

-- A header is there with its value where `to_str` reads it (visible ASCII), and with none otherwise.
pub record Request : Type 0 where
  pub method : Method
  pub headers : List (String × Option String)
  pub cookies : List (String × String)

-- `headers.get(name).and_then(|value| value.to_str().ok())`, of the first value of the name.
unfoldable pub header : List (String × Option String) → String → Option String
header [] name = none
header ((key, value) ∷ headers) name = if key == name then value else header headers name

-- `jar.get(name).map(Cookie::value)`
unfoldable pub cookie : List (String × String) → String → Option String
cookie [] name = none
cookie ((key, value) ∷ jar) name = if key == name then some value else cookie jar name

-- `Option::filter`
abbrev pub filter : {A : Type 0} → (A → Bool) → Option A → Option A
filter p none = none
filter p (some a) = if p a then some a else none
