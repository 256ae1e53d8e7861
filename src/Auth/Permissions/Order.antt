-- ===== src/Auth/Permissions/Order.antt =====
-- `has_role` is the order viewer < operator < engineer < admin.
use text.Mathlib.TextEquality.{eq_iff}
use superviseur.Prelude.{ℕ, suc, ◌≤◌, ◌≡◌, ◌↔◌, ◌≢◌, refl, true, false, String, arith, string_eq}
use superviseur.Models.{RoleName, role_value}
use superviseur.Auth.Permissions.{role_level, has_role}

-- The rank of a role in the documented order.
abbrev pub rank : RoleName → ℕ
rank RoleName.viewer = 0
rank RoleName.operator = 1
rank RoleName.engineer = 2
rank RoleName.admin = 3

role_level-role_value : (r : RoleName) → role_level (role_value r) ≡ suc (rank r)
unfolding role_level
role_level-role_value RoleName.viewer = refl
role_level-role_value RoleName.operator = refl
role_level-role_value RoleName.engineer = refl
role_level-role_value RoleName.admin = refl

-- A named role has a minimum exactly when it ranks at least as high.
pub has_role-rank : (r m : RoleName) → (has_role (role_value r) m ≡ true) ↔ (rank m ≤ rank r)
unfolding has_role
has_role-rank r m = ground (arith, role_level-role_value r, role_level-role_value m)

role_level_unknown : (role : String) → ((r : RoleName) → role ≢ role_value r) → role_level role ≡ 0
unfolding role_level
role_level_unknown role h = ground (
  arith,
  eq_iff role "viewer",
  eq_iff role "operator",
  eq_iff role "engineer",
  eq_iff role "admin",
  h RoleName.viewer,
  h RoleName.operator,
  h RoleName.engineer,
  h RoleName.admin,
)

-- A role that is none of the four has no right, whatever the minimum.
pub unknown_role_refused :
    (role : String) (m : RoleName)
    → ((r : RoleName) → role ≢ role_value r)
    → has_role role m ≡ false
unfolding has_role
unknown_role_refused role m h = ground (arith, role_level-role_value m, role_level_unknown role h)
