-- ===== src/Access/Codec.antt =====
-- The codes of the scopes in the database.
use arc_admin.Prelude.{string_eq, String, arith, refl, some, ◌↔◌, ◌≡◌}
use arc_admin.Access.{DataScope, all, as_str, from_database}
use text.Mathlib.TextEquality.{eq_iff}

-- Every code is read back.
from_database_of_str : (d : DataScope) → from_database (as_str d) ≡ some d
unfolding from_database as_str
from_database_of_str all = refl
from_database_of_str _ = refl

as_str_of_database : (s : String) (d : DataScope) → from_database s ≡ some d → s ≡ as_str d
unfolding from_database as_str
as_str_of_database s d h = ground (
  arith,
  eq_iff s "all",
  eq_iff s "organization",
  eq_iff s "department_and_children",
  eq_iff s "department",
  eq_iff s "self",
)

-- A text is read as a scope exactly when it is that scope's code: reading undoes writing, and no
-- other text is accepted.
pub from_database-as_str :
    (s : String) (d : DataScope) → (from_database s ≡ some d) ↔ (s ≡ as_str d)
from_database-as_str s d = (as_str_of_database s d, λ e. rw e (from_database_of_str d))
