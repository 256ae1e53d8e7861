-- ===== src/Auth/Permissions.antt =====
-- The hierarchy of roles (backend/app/auth/permissions.py).
pub mod Order
use superviseur.Prelude.{ℕ, Bool, String, leb, ◌==◌, string_eq, if◌then◌else◌}
use superviseur.Models.{RoleName, role_value}

-- `ROLE_LEVEL.get(role, 0)`
unfoldable pub role_level : String → ℕ
role_level role =
    if role == "viewer"
    then 1
    else if role == "operator"
    then 2
    else if role == "engineer"
    then 3
    else if role == "admin"
    then 4
    else 0

-- `has_role`
unfoldable pub has_role : String → RoleName → Bool
has_role role minimum = leb (role_level (role_value minimum)) (role_level role)
