-- ===== src/Collector/Writer/Checks.antt =====
-- Which commands the writer accepts.
use superviseur.Prelude.{◌≡◌, ◌↔◌, refl, true, false, Option, none, some, string_eq, arith}
use superviseur.Prelude.Int.{ℤ, pos, ◌≤ℤ◌}
use superviseur.Prelude.Float.{Float}
use superviseur.Models.{RoleName, role_value}
use superviseur.Auth.Permissions.{has_role, role_level}
use superviseur.Collector.Writer.{WriteTarget, is_writer, check_target, is_below, is_above}

-- The value of a command lies within the limits of its point: below no minimum, above no maximum.
-- A release has no value.
abbrev pub IsWithin : WriteTarget → Option Float → Type 0
IsWithin t none = Unit
IsWithin t (some v) = (is_below v t.write_min ≡ false) × (is_above v t.write_max ≡ false)

-- The point and the value of a command are accepted exactly when the point is writable, the
-- priority lies in 1..16 and the value lies within the limits of the point.
pub check_target-none :
    (t : WriteTarget) (v : Option Float) (p : ℤ)
    → (check_target (some t) v p ≡ none)
      ↔ ((t.writable ≡ true) × (pos 1 ≤ℤ p) × (p ≤ℤ pos 16) × IsWithin t v)
unfolding check_target
check_target-none t none p = ground arith
check_target-none t (some v) p = ground arith

-- The roles that may write are exactly those that rank at least as an operator.
pub is_writer-rank :
    (r : RoleName) → is_writer (some (role_value r)) ≡ has_role (role_value r) RoleName.operator
unfolding is_writer has_role role_level
is_writer-rank RoleName.viewer = refl
is_writer-rank RoleName.operator = refl
is_writer-rank RoleName.engineer = refl
is_writer-rank RoleName.admin = refl
