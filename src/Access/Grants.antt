-- ===== src/Access/Grants.antt =====
-- `can_grant` is the order of the scopes by reach.
use arc_admin.Prelude.{arith, true, ℕ, ◌↔◌, ◌≡◌, ◌≤◌}
use arc_admin.Access.{
  DataScope, all, organization, department_and_children, department, self_only, can_grant,
}

-- How far a scope reaches, written independently of `can_grant`.
abbrev pub reach : DataScope → ℕ
reach self_only = 0
reach department = 1
reach department_and_children = 2
reach organization = 3
reach all = 4

-- A scope may grant another exactly when it reaches at least as far.
pub can_grant-reach : (a b : DataScope) → (can_grant a b ≡ true) ↔ (reach b ≤ reach a)
unfolding can_grant
can_grant-reach a b = ground arith
