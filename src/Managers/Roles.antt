-- ===== src/Managers/Roles.antt =====
-- internal/jimm/role/role.go: RoleManager over the database and the authorization service.
use jimm.Prelude.{ℕ, String, List}
use jimm.Exec.{Exec, ◌>>=◌, ◌>>◌}
use jimm.Ofga.Names.{JujuTag, role_kind}
use jimm.Ofga.Server.{Server}
use jimm.Ofga.Client.{remove_role as remove_role_tuples}
use jimm.User.{User}
use jimm.Pagination.{LimitOffsetPagination}
use jimm.Managers.{for_admin}

-- dbmodel.RoleEntry
pub record RoleEntry : Type 0 where
  pub uuid : String
  pub name : String

abbrev pub role_tag : RoleEntry → JujuTag
role_tag r = record { kind = role_kind; id = r.uuid }

-- RoleManager: the queries of db.Database on roles
pub record RoleManager (V : Server) : Type 0 where
  pub add : String → Exec V.State RoleEntry
  pub count : Exec V.State ℕ
  pub get : RoleEntry → Exec V.State RoleEntry
  pub update_name : String → String → Exec V.State (Unit {0})
  pub remove : RoleEntry → Exec V.State (Unit {0})
  pub list : ℕ → ℕ → String → Exec V.State (List RoleEntry)

module _ (V : Server) (M : RoleManager V) where
  unfoldable pub add_role : User → String → Exec V.State RoleEntry
  unfolding for_admin
  add_role user name = for_admin user (M.add name)

  unfoldable pub get_role : User → RoleEntry → Exec V.State RoleEntry
  unfolding for_admin
  get_role user role = for_admin user (M.get role)

  unfoldable pub get_role_by_uuid : User → String → Exec V.State RoleEntry
  unfolding get_role
  get_role_by_uuid user uuid = get_role user (record { uuid = uuid; name = "" })

  unfoldable pub get_role_by_name : User → String → Exec V.State RoleEntry
  unfolding get_role
  get_role_by_name user name = get_role user (record { uuid = ""; name = name })

  -- RemoveRole once the user is found to be an administrator
  abbrev pub drop_role : ℕ → String → Exec V.State (Unit {0})
  drop_role fuel name = do
    role ← M.get (record { uuid = ""; name = name })
    remove_role_tuples V fuel (role_tag role)
    M.remove role

  unfoldable pub remove_role : ℕ → User → String → Exec V.State (Unit {0})
  unfolding for_admin
  remove_role fuel user name = for_admin user (drop_role fuel name)

  unfoldable pub rename_role : User → String → String → Exec V.State (Unit {0})
  unfolding for_admin
  rename_role user old_name new_name = for_admin user (M.update_name old_name new_name)

  unfoldable pub list_roles : User → LimitOffsetPagination → String → Exec V.State (List RoleEntry)
  unfolding for_admin
  list_roles user pagination match =
      for_admin user (M.list pagination.limit pagination.offset match)

  unfoldable pub count_roles : User → Exec V.State ℕ
  unfolding for_admin
  count_roles user = for_admin user M.count
