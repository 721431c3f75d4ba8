-- ===== src/Auth.antt =====
-- Roles (apps/api/src/modules/auth/rbac.ts). The rest of apps/api/src/modules/auth is in the children.
pub mod Rows
pub mod Calls
pub mod Repository
pub mod Otp
pub mod Sessions
pub mod Accounts
pub mod Registration
pub mod Login
pub mod Passwords
mod Tests
use howlow.Prelude.{ℕ, Bool, true, false, List, [], ◌∷◌, ◌==◌, ◌||◌}

pub data Role : Type 0 where
  user seller support_agent finance auction_manager admin super_admin : Role

-- `ROLE_RANK`
abbrev pub role_rank : Role → ℕ
role_rank user = 0
role_rank seller = 10
role_rank support_agent = 20
role_rank finance = 30
role_rank auction_manager = 40
role_rank admin = 50
role_rank super_admin = 60

-- `roles.includes(role)`; the ranks tell the roles apart.
abbrev pub includes_role : List Role → Role → Bool
includes_role [] r = false
includes_role (x ∷ xs) r = role_rank x == role_rank r || includes_role xs r

-- `allowed.some((role) => userRoles.includes(role))`
abbrev pub some_allowed : List Role → List Role → Bool
some_allowed roles [] = false
some_allowed roles (r ∷ allowed) = includes_role roles r || some_allowed roles allowed

-- `hasAnyRole`
abbrev pub has_any_role : List Role → List Role → Bool
has_any_role roles [] = true
has_any_role roles (r ∷ allowed) =
    includes_role roles super_admin || some_allowed roles (r ∷ allowed)
