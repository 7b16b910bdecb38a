-- ===== src/Managers/Identities.antt =====
-- internal/jimm/identity/identity.go: IdentityManager over the database.
use jimm.Prelude.{ℕ, String, List, map}
use jimm.Errors.{Result}
use jimm.Exec.{Exec, pure, lift, ◌>>=◌}
use jimm.Ofga.Server.{Server}
use jimm.User.{User, new_user}
use jimm.Pagination.{LimitOffsetPagination}
use jimm.Managers.{for_admin}

-- IdentityManager: the queries of db.Database on identities, which are told by their names
pub record IdentityManager (V : Server) : Type 0 where
  pub new_identity : String → Result String
  pub fetch : String → Exec V.State String
  pub list : ℕ → ℕ → String → Exec V.State (List String)
  pub count : Exec V.State ℕ

module _ (V : Server) (M : IdentityManager V) where
  unfoldable pub fetch_identity : String → Exec V.State User
  fetch_identity id = do
    identity ← lift (M.new_identity id)
    name ← M.fetch identity
    pure (new_user name)

  unfoldable pub list_identities : User → LimitOffsetPagination → String → Exec V.State (List User)
  unfolding for_admin
  list_identities user pagination match =
      for_admin user
        (M.list pagination.limit pagination.offset match >>= λ names. pure (map new_user names))

  unfoldable pub count_identities : User → Exec V.State ℕ
  unfolding for_admin
  count_identities user = for_admin user M.count
