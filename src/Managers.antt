-- ===== src/Managers.antt =====
-- internal/jimm/group, internal/jimm/role and internal/jimm/identity: what the managers of groups, roles
-- and identities share.
pub mod Groups
pub mod Roles
pub mod Identities
pub mod Refused
pub mod Removal
mod Tests
use jimm.Prelude.{Bool, true, false, not, if◌then◌else◌}
use jimm.Errors.{codef, code_unauthorized}
use jimm.Exec.{Exec, raise}
use jimm.User.{User}

-- The guard at the start of an operation
unfoldable pub for_admin {ℓ} : {S : Type 0} {A : Type ℓ} → User → Exec S A → Exec S A
unfolding codef
for_admin user m s =
    (if not user.jimm_admin then raise (codef code_unauthorized "unauthorized") else m) s
