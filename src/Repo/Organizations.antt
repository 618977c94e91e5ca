-- ===== src/Repo/Organizations.antt =====
-- backend/src/repositories/organizations.rs: where an account that the system creates belongs.
use arc_admin.Prelude.{
  nat_eq, string_eq, Option, err, fetch_optional, none, ok, some, ℕ, ◌&&◌, ◌==◌,
}
use arc_admin.Error.{Sql, other}
use arc_admin.Db.{Db, OrganizationRow, DepartmentRow}

abbrev department_id_of : Option DepartmentRow → Option ℕ
department_id_of none = none
department_id_of (some d) = some d.id

with_root : Db → Option OrganizationRow → Sql (ℕ × Option ℕ)
with_root db none = err (other "no rows returned")
with_root db (some o) = ok (
  o.id,
  department_id_of (
      fetch_optional
        (λ (d : DepartmentRow).
          d.organization_id == o.id && (d.code == "root" && d.status == "active"))
        db.departments),
)

-- `fetch_one` of the default organization, with its root department where that is active.
unfoldable pub default_assignment : Db → Sql (ℕ × Option ℕ)
unfolding with_root
default_assignment db = with_root db (
    fetch_optional (λ (o : OrganizationRow). o.code == "default" && o.status == "active")
      db.organizations)
