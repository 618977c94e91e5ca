-- ===== src/Repo/Departments.antt =====
-- backend/src/repositories/departments.rs, and the recursive query `visible_departments` that the
-- other repositories share.
use arc_admin.Prelude.{
  nat_eq, string_eq, Bool, List, Option, String, [], count_where, delete_where, distinct, elem,
  exists, fail_if, false, fetch_optional, flat_map, if◌then◌else◌, is_none, is_some, is_some_of,
  length, ltb, map, none, not, ok, select, some, suc, true, unwrap_or, update_where, zero, ℕ, ◌&&◌,
  ◌++◌, ◌==◌, ◌>>◌, ◌||◌, ◌∷◌,
}
use arc_admin.Db.{Db, DepartmentRow, UserRow}
use arc_admin.Access.{as_str, ActorContext}
use arc_admin.Error.{Sql, unique_violation, foreign_key_violation}

-- The rows that JOIN adds to a working table: children of its ids inside the organization.
unfoldable pub children : ℕ → List DepartmentRow → List ℕ → List ℕ
children org ds frontier =
    flat_map
      (λ p.
        map (λ (d : DepartmentRow). d.id)
          (select (λ (d : DepartmentRow). is_some_of d.parent_id p && d.organization_id == org) ds))
      frontier

-- WITH RECURSIVE … UNION: a round keeps what is new, and the query ends with an empty round.
unfoldable pub visible_from : ℕ → ℕ → List DepartmentRow → List ℕ → List ℕ → List ℕ
visible_from zero org ds seen frontier = seen
visible_from (suc fuel) org ds seen frontier =
    elim (distinct (select (λ i. not (elem i seen)) (children org ds frontier))) [
      | [] ↦ seen
      | i ∷ new ↦ visible_from fuel org ds (seen ++ i ∷ new) (i ∷ new)
    ]

-- The departments at and below one of the organization. Each round but the last adds a department,
-- so there are at most as many rounds as departments.
unfoldable pub visible_departments : Db → ℕ → Option ℕ → List ℕ
visible_departments db org none = []
visible_departments db org (some department) =
    let start =
      map (λ (d : DepartmentRow). d.id)
        (select (λ (d : DepartmentRow). d.id == department && d.organization_id == org)
          db.departments) in
    visible_from (suc (length db.departments)) org db.departments start start

-- WITH RECURSIVE … UNION ALL: each round joins the children of the last one, until it is empty. In a
-- forest no department comes twice, so there are at most as many rounds as departments.
unfoldable pub descend : ℕ → ℕ → List DepartmentRow → List ℕ → List ℕ
descend zero org ds frontier = []
descend (suc fuel) org ds frontier = elim frontier [
  | [] ↦ []
  | i ∷ is ↦ (i ∷ is) ++ descend fuel org ds (children org ds (i ∷ is))
]

abbrev rounds : Db → ℕ
rounds db = suc (length db.departments)

abbrev ids_of : List DepartmentRow → List ℕ
ids_of = map (λ (d : DepartmentRow). d.id)

-- The departments that the actor's scope shows, from the roots of the organization or from the
-- actor's own department, and down where the scope goes down.
unfoldable pub visible_to : Db → ActorContext → List ℕ
unfolding as_str descend
visible_to db actor =
    let scope = as_str actor.data_scope in
    let from_root = scope == "all" || scope == "organization" in
    let goes_down = from_root || scope == "department_and_children" in
    let from_own = scope == "department_and_children" || scope == "department" || scope == "self" in
    let start = ids_of (
      select
        (λ (d : DepartmentRow).
          d.organization_id == actor.organization_id
          && (from_root && is_none d.parent_id || from_own && is_some_of actor.department_id d.id))
        db.departments) in
    if goes_down then descend (rounds db) actor.organization_id db.departments start else start

-- The row with the counts that the query adds.
pub record DepartmentView : Type 0 where
  pub row : DepartmentRow
  pub open row use *
  pub member_count : ℕ
  pub child_count : ℕ

unfoldable pub is_member : ℕ → UserRow → Bool
is_member id u = is_some_of u.department_id id && is_none u.deleted_at

unfoldable pub is_child : ℕ → DepartmentRow → Bool
is_child id d = is_some_of d.parent_id id

abbrev counted : Db → Option DepartmentRow → Option DepartmentView
counted db none = none
counted db (some d) = some (record {
  row = d;
  member_count = count_where (is_member d.id) db.users;
  child_count = count_where (is_child d.id) db.departments;
})

unfoldable pub find_by_id : Db → ActorContext → ℕ → Option DepartmentView
unfolding is_member is_child
find_by_id db actor id =
    if elem id (visible_to db actor)
    then counted db (fetch_optional (λ (d : DepartmentRow). d.id == id) db.departments)
    else none

-- `$3::bigint IS NULL OR id <> $3`
abbrev not_excluded : Option ℕ → ℕ → Bool
not_excluded none id = true
not_excluded (some e) id = not (id == e)

unfoldable pub code_exists : Db → ℕ → String → Option ℕ → Bool
code_exists db org code exclude_id =
    exists
      (λ (d : DepartmentRow).
        d.organization_id == org && d.code == code && not_excluded exclude_id d.id)
      db.departments

-- The parent is the department itself or one below it.
unfoldable pub parent_would_create_cycle : Db → ℕ → ℕ → ℕ → Bool
parent_would_create_cycle db org department_id parent_id = elem parent_id (
    descend (rounds db) org db.departments (
      ids_of (
        select (λ (d : DepartmentRow). d.id == department_id && d.organization_id == org)
          db.departments)))

pub record NewDepartment : Type 0 where
  pub parent_id : ℕ
  pub code : String
  pub name : String
  pub status : String

pub record DepartmentUpdate : Type 0 where
  pub parent_id : Option ℕ
  pub code : Option String
  pub name : Option String
  pub status : Option String

-- UNIQUE (organization_id, code), and the parent is a department of the organization.
unfoldable pub create : Db → ℕ → NewDepartment → Sql (ℕ × Db)
create db org d = do
  fail_if
      (exists (λ (r : DepartmentRow). r.organization_id == org && r.code == d.code) db.departments)
      unique_violation
  fail_if
      (not (
        exists (λ (r : DepartmentRow). r.id == d.parent_id && r.organization_id == org)
          db.departments))
      foreign_key_violation
  ok (
    db.next_department,
    record db {
      departments =
          db.departments
          ++ record {
            id = db.next_department;
            organization_id = org;
            parent_id = some d.parent_id;
            code = d.code;
            name = d.name;
            status = d.status;
          }
            ∷ [];
      next_department = suc db.next_department;
    },
  )

unfoldable pub apply_update : DepartmentUpdate → DepartmentRow → DepartmentRow
apply_update u d = record d {
  parent_id = if is_some u.parent_id then u.parent_id else d.parent_id;
  code = unwrap_or u.code d.code;
  name = unwrap_or u.name d.name;
  status = unwrap_or u.status d.status;
}

-- The constraints on what an UPDATE writes.
breaks_code : Db → ℕ → ℕ → Option String → Bool
breaks_code db org id none = false
breaks_code db org id (some code) =
    exists (λ (r : DepartmentRow). r.organization_id == org && r.code == code && not (r.id == id))
      db.departments

breaks_parent : Db → ℕ → Option ℕ → Bool
breaks_parent db org none = false
breaks_parent db org (some p) =
    not (exists (λ (r : DepartmentRow). r.id == p && r.organization_id == org) db.departments)

unfoldable pub update : Db → ℕ → ℕ → DepartmentUpdate → Sql (Bool × Db)
unfolding apply_update breaks_code breaks_parent
update db org id u =
    let hit = λ (d : DepartmentRow). d.id == id && d.organization_id == org in
    do
      fail_if (exists hit db.departments && breaks_code db org id u.code) unique_violation
      fail_if (exists hit db.departments && breaks_parent db org u.parent_id) foreign_key_violation
      ok (
        ltb 0 (count_where hit db.departments),
        record db { departments = update_where hit (apply_update u) db.departments },
      )

-- Deleted users let go of the department first.
unfoldable pub delete_if_empty : Db → ℕ → ℕ → Bool × Db
unfolding is_member is_child
delete_if_empty db org id =
    let users =
      update_where (λ (u : UserRow). is_some_of u.department_id id && is_some u.deleted_at)
        (λ u. record u { department_id = none }) db.users in
    let goes = λ (d : DepartmentRow).
      d.id == id
      && d.organization_id == org
      && is_some d.parent_id
      && not (exists (is_child id) db.departments)
      && not (exists (is_member id) users) in
    (
      ltb 0 (count_where goes db.departments),
      record db { users = users; departments = delete_where goes db.departments },
    )
