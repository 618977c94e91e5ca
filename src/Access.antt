-- ===== src/Access.antt =====
-- backend/src/access.rs: the data scopes, their codes in the database, which scope may grant which,
-- and the authenticated actor.
pub mod Grants
pub mod Codec
use arc_admin.Prelude.{
  string_eq, Bool, List, Option, String, elem, false, if◌then◌else◌, none, not, some, true, ℕ, ◌==◌,
}

pub data DataScope : Type 0 where
  all organization department_and_children department self_only : DataScope

unfoldable pub as_str : DataScope → String
as_str all = "all"
as_str organization = "organization"
as_str department_and_children = "department_and_children"
as_str department = "department"
as_str self_only = "self"

unfoldable pub from_database : String → Option DataScope
from_database value =
    if value == "all"
    then some all
    else if value == "organization"
    then some organization
    else if value == "department_and_children"
    then some department_and_children
    else if value == "department"
    then some department
    else if value == "self"
    then some self_only
    else none

unfoldable pub can_grant : DataScope → DataScope → Bool
can_grant all requested = true
can_grant organization all = false
can_grant organization _ = true
can_grant department_and_children department_and_children = true
can_grant department_and_children department = true
can_grant department_and_children self_only = true
can_grant department_and_children _ = false
can_grant department department = true
can_grant department self_only = true
can_grant department _ = false
can_grant self_only self_only = true
can_grant self_only _ = false

pub record ActorContext : Type 0 where
  pub user_id : ℕ
  pub session_id : ℕ
  pub organization_id : ℕ
  pub department_id : Option ℕ
  pub data_scope : DataScope
  pub permission_codes : List String

unfoldable pub has_permission : ActorContext → String → Bool
has_permission actor code = elem code actor.permission_codes

abbrev is_self_only : DataScope → Bool
is_self_only self_only = true
is_self_only _ = false

unfoldable pub can_create_peer : ActorContext → Bool
can_create_peer actor = not (is_self_only actor.data_scope)
