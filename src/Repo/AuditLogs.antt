-- ===== src/Repo/AuditLogs.antt =====
-- backend/src/repositories/audit_logs.rs, `record`. The trace id is not modelled.
use arc_admin.Prelude.{
  nat_eq, string_eq, List, Option, String, [], fetch_optional, if◌then◌else◌, none, some, ℕ, ◌++◌,
  ◌==◌, ◌∷◌,
}
use arc_admin.Db.{Db, UserRow, Detail}

user_with_id : Db → Option ℕ → Option UserRow
user_with_id db none = none
user_with_id db (some id) = fetch_optional (λ u. u.id == id) db.users

-- `WHERE id = $4 AND $3 = 'user'`
target_user : Db → String → Option ℕ → Option UserRow
unfolding user_with_id
target_user db target_type target_id =
    if target_type == "user" then user_with_id db target_id else none

abbrev coalesce {ℓ} : {A : Type ℓ} → Option A → Option A → Option A
coalesce none o = o
coalesce (some a) o = some a

abbrev organization_of : Option UserRow → Option ℕ
organization_of none = none
organization_of (some u) = some u.organization_id

abbrev department_of : Option UserRow → Option ℕ
department_of none = none
department_of (some u) = u.department_id

unfoldable pub record_log : Db → Option ℕ → String → String → Option ℕ → List (String × Detail) → Db
unfolding target_user user_with_id
record_log db actor_user_id action target_type target_id details =
    let actor = user_with_id db actor_user_id in
    let target = target_user db target_type target_id in
    record db {
      audit_logs =
          db.audit_logs
          ++ record {
            actor_user_id = actor_user_id;
            action = action;
            target_type = target_type;
            target_id = target_id;
            details = details;
            organization_id = coalesce (organization_of actor) (organization_of target);
            department_id = coalesce (department_of actor) (department_of target);
          }
            ∷ [];
    }
