-- ===== src/Handler/Departments.antt =====
-- backend/src/handlers/departments.rs, without `list`.
use arc_admin.Prelude.{nat_eq, string_eq, ok, ℕ}
use arc_admin.Repo.Departments.{DepartmentView}
use arc_admin.Action.{Action, and_then, check}
use arc_admin.Service.Departments
use arc_admin.Service.Departments.{CreateDepartmentRequest, UpdateDepartmentRequest}
use arc_admin.Handler.{Call, permitted, step_up, created, status_no_content}

unfoldable get : Call → ℕ → Action DepartmentView
get call id =
    permitted call "organization:department:read"
      λ actor. check (λ pool. Departments.get pool actor id)

unfoldable create : Call → CreateDepartmentRequest → Action (ℕ × DepartmentView)
create call req = permitted call "organization:department:write" λ actor.
    and_then (step_up call actor "departments.write") λ _. created (Departments.create actor req)

unfoldable update : Call → ℕ → UpdateDepartmentRequest → Action DepartmentView
update call id req =
    permitted call "organization:department:write" λ actor.
      and_then (step_up call actor "departments.write") λ _. Departments.update actor id req

unfoldable delete : Call → ℕ → Action ℕ
delete call id = permitted call "organization:department:write" λ actor.
    and_then (step_up call actor "departments.delete")
      λ _. and_then (Departments.delete actor id) λ _. check (λ pool. ok status_no_content)
