-- ===== src/Service/Users/SuperAdmin/Written.antt =====
-- What the two writes of an update leave of the holders of the super administrator's role.
use arc_admin.Prelude.{
  nat_eq, string_eq, Bool, Bool-cases, List, Option, Option-cases, String, arith, exists-update,
  exists-weaken, false, if◌then◌else◌, inl, inr, is_some_and, none, ok, refl, some, sym, true,
  unwrap_or, updated, ℕ, ◌+◌, ◌==◌, ◌∙◌, ◌≡◌,
}
use arc_admin.Db.{Db, UserRow, UserRoleRow, RoleRow}
use arc_admin.Repo.Users
use arc_admin.Repo.Users.{has_role, is_active, is_present, update_present}
use arc_admin.Repo.Users.Holders.{is_holder}
use arc_admin.Service.Users.Checks.{protect_last_super_admin}
use arc_admin.Service.Users.Profile.{revokes_sessions, write_password}
use arc_admin.Service.Users.SuperAdmin.{
  has_super_admin, super_admin_row, super_admin_row-held, has_super_admin-held,
  protect-held_by_other, held-other, held_by_other,
}
use arc_admin.Service.Users.SuperAdmin.Writes.{other-update_present}

-- Some active user other than `id` holds the super administrator's role.
unfoldable pub other_super_admin : ℕ → Db → Bool
other_super_admin id db =
    is_some_and (super_admin_row db.roles)
      λ (r : RoleRow). held_by_other id db.users db.user_roles r.id

other_super_admin-protect :
    (db : Db) (id : ℕ)
    → protect_last_super_admin db id ≡ ok tt
    → has_super_admin db ≡ true
    → other_super_admin id db ≡ true
unfolding other_super_admin
other_super_admin-protect db id guarded one =
    let (role, e, here) = super_admin_row-held db one in
    rw e (protect-held_by_other db id role guarded e here)

has_super_admin-other :
    (db : Db) (id : ℕ) → other_super_admin id db ≡ true → has_super_admin db ≡ true
unfolding has_super_admin other_super_admin
has_super_admin-other db id h = elim (Option-cases (super_admin_row db.roles)) [
  | inl missing ↦ absurd (ground (arith, missing))
  | inr (role, e) ↦ rw e (held-other id db.users db.user_roles role.id (rw e at h))
]

other_super_admin-update_present :
    (db : Db) (id : ℕ) (f : UserRow → UserRow)
    → other_super_admin id db ≡ true
    → other_super_admin id (update_present db id f).1 ≡ true
unfolding update_present other_super_admin
other_super_admin-update_present db id f h = elim (Option-cases (super_admin_row db.roles)) [
  | inl missing ↦ absurd (ground (arith, missing))
  | inr (role, e) ↦ rw e (other-update_present id role.id f db.users db.user_roles (rw e at h))
]

is_holder-updated :
    (id role_id : ℕ) (f : UserRow → UserRow) (grants : List UserRoleRow)
    → ((u : UserRow) → is_active u ≡ true → is_active (f u) ≡ true)
    → ((u : UserRow) → (f u).id ≡ u.id)
    → (u : UserRow) → is_holder grants role_id u ≡ true
    → is_holder grants role_id (updated (is_present id) f u) ≡ true
unfolding is_holder
is_holder-updated id role_id f grants active same u holds = elim (Bool-cases (is_present id u)) [
  | inl hit ↦ let still = active u (ground arith) in rw (hit, same u) (ground (arith, still))
  | inr miss ↦ rw miss holds
]

-- An update that takes no activity away keeps the holders.
has_super_admin-update_present :
    (db : Db) (id : ℕ) (f : UserRow → UserRow)
    → ((u : UserRow) → is_active u ≡ true → is_active (f u) ≡ true)
    → ((u : UserRow) → (f u).id ≡ u.id)
    → has_super_admin db ≡ true
    → has_super_admin (update_present db id f).1 ≡ true
has_super_admin-update_present db id f active same h =
    let (role, e, here) = super_admin_row-held db h in
    unfold update_present in
    has_super_admin-held _ role e (
      exists-update (is_holder db.user_roles role.id) (is_present id) f db.users
      ∙ exists-weaken _ _ db.users
          (λ u holds. is_holder-updated id role.id f db.user_roles active same u holds) here)

write_password-other :
    (db : Db) (id : ℕ) (hash : Option String) {db' : Db}
    → write_password db id hash ≡ ok db'
    → other_super_admin id db ≡ true
    → other_super_admin id db' ≡ true
unfolding Users.update_password
write_password-other db id none h other = ground arith
write_password-other db id (some hash) {db'} h other =
    let f =
      λ (u : UserRow). record u { password_hash = hash; token_version = u.token_version + 1 } in
    let written : (update_present db id f).1 ≡ db' = ground arith in
    rw (sym written) (other_super_admin-update_present db id f other)

write_password-has_super_admin :
    (db : Db) (id : ℕ) (hash : Option String) {db' : Db}
    → write_password db id hash ≡ ok db'
    → has_super_admin db ≡ true
    → has_super_admin db' ≡ true
unfolding Users.update_password
write_password-has_super_admin db id none h one = ground arith
write_password-has_super_admin db id (some hash) {db'} h one =
    let f =
      λ (u : UserRow). record u { password_hash = hash; token_version = u.token_version + 1 } in
    let written : (update_present db id f).1 ≡ db' = ground arith in
    rw (sym written)
      (has_super_admin-update_present db id f (λ u a. unfold is_active in a) (λ u. refl) one)

kept_status :
    (status : Option String) (old : String)
    → revokes_sessions status ≡ false
    → (old == "active") ≡ true
    → (unwrap_or status old == "active") ≡ true
kept_status none old keeps h = h
kept_status (some new) old keeps h = ground arith

pub write_password-roles :
    (db : Db) (id : ℕ) (hash : Option String) {db' : Db}
    → write_password db id hash ≡ ok db'
    → db'.roles ≡ db.roles
unfolding Users.update_password update_present
write_password-roles db id none h = ground arith
write_password-roles db id (some hash) h = ground arith

update_profile-has_super_admin :
    (db : Db) (id : ℕ) (display_name : Option String) (is_set : Bool) (email status : Option String)
    (department_id : Option ℕ)
    → revokes_sessions status ≡ false
    → has_super_admin db ≡ true
    → has_super_admin (Users.update_profile db id display_name is_set email status department_id).1
      ≡ true
unfolding Users.update_profile
update_profile-has_super_admin db id display_name is_set email status department_id keeps one =
    has_super_admin-update_present db id _
      (λ u a. unfold is_active in ground (arith, kept_status status u.status keeps)) (λ u. refl) one

-- The guard is asked where the new status is not active; elsewhere nobody loses the role.
pub guarded_writes :
    (now : ℕ) (pool middle : Db) (id : ℕ) (hash display_name : Option String) (is_set : Bool)
    (email status : Option String) (department_id : Option ℕ)
    → (if revokes_sessions status then protect_last_super_admin pool id else ok tt) ≡ ok tt
    → write_password pool id hash ≡ ok middle
    → has_super_admin pool ≡ true
    → has_super_admin
        (Users.update_profile middle id display_name is_set email status department_id).1
      ≡ true
guarded_writes now pool middle id hash display_name is_set email status department_id guarded
      written one =
    elim (Bool-cases (revokes_sessions status)) [
      | inl loses ↦
          let other = other_super_admin-protect pool id (rw loses at guarded) one in
          has_super_admin-other _ id (
            unfold Users.update_profile in
            other_super_admin-update_present middle id _
              (write_password-other pool id hash written other))
      | inr keeps ↦
          update_profile-has_super_admin middle id display_name is_set email status department_id
            keeps (write_password-has_super_admin pool id hash written one)
    ]
