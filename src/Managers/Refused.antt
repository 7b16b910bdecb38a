-- ===== src/Managers/Refused.antt =====
-- internal/jimm/group, internal/jimm/role, internal/jimm/identity and internal/jimm/login: what the managers
-- do for a user who has logged in and does not administer JIMM.
use jimm.Prelude.{ℕ, ◌≡◌, ◌∙◌, refl, String, false}
use jimm.Errors.{codef, code_unauthorized, ok, err}
use jimm.Exec.{Exec, pure, ◌>>=◌}
use jimm.Ofga.Server.{Server, CheckLaws}
use jimm.User.{User}
use jimm.Pagination.{LimitOffsetPagination}
use jimm.Login.{LoginManager}
use jimm.Login.Vouched.{LoginRequest, LoginLaws, log_in, login_vouched, administers}
use jimm.Managers.{for_admin}
use jimm.Managers.Groups.{
  GroupManager, add_group, count_groups, get_group_by_uuid, get_group_by_name, rename_group,
  remove_group, list_groups,
}
use jimm.Managers.Roles.{
  RoleManager, add_role, get_role_by_uuid, get_role_by_name, remove_role, rename_role, list_roles,
  count_roles,
}
use jimm.Managers.Identities.{IdentityManager, list_identities, count_identities}

-- The requests that the managers take from a user.
pub data Request : Type 0 where
  add_group_named : String → Request
  group_count : Request
  group_by_uuid : String → Request
  group_by_name : String → Request
  group_renamed : String → String → Request
  group_removed : String → Request
  group_page : LimitOffsetPagination → String → Request
  add_role_named : String → Request
  role_count : Request
  role_by_uuid : String → Request
  role_by_name : String → Request
  role_renamed : String → String → Request
  role_removed : String → Request
  role_page : LimitOffsetPagination → String → Request
  identity_count : Request
  identity_page : LimitOffsetPagination → String → Request

module _ (V : Server) (G : GroupManager V) (R : RoleManager V) (I : IdentityManager V)
    (fuel : ℕ) where
  -- what a request returns is left aside
  abbrev done : {A : Type 0} → Exec V.State A → Exec V.State (Unit {0})
  done m = m >>= λ a. pure tt

  unfoldable pub handle : User → Request → Exec V.State (Unit {0})
  unfolding add_group count_groups get_group_by_uuid get_group_by_name rename_group remove_group
      list_groups add_role get_role_by_uuid get_role_by_name remove_role rename_role list_roles
      count_roles list_identities count_identities
  handle u (add_group_named name) = done (add_group V G u name)
  handle u group_count = done (count_groups V G u)
  handle u (group_by_uuid uuid) = done (get_group_by_uuid V G u uuid)
  handle u (group_by_name name) = done (get_group_by_name V G u name)
  handle u (group_renamed old_name new_name) = rename_group V G u old_name new_name
  handle u (group_removed name) = remove_group V G fuel u name
  handle u (group_page page match) = done (list_groups V G u page match)
  handle u (add_role_named name) = done (add_role V R u name)
  handle u role_count = done (count_roles V R u)
  handle u (role_by_uuid uuid) = done (get_role_by_uuid V R u uuid)
  handle u (role_by_name name) = done (get_role_by_name V R u name)
  handle u (role_renamed old_name new_name) = rename_role V R u old_name new_name
  handle u (role_removed name) = remove_role V R fuel u name
  handle u (role_page page match) = done (list_roles V R u page match)
  handle u identity_count = done (count_identities V I u)
  handle u (identity_page page match) = done (list_identities V I u page match)

  refused :
      (u : User) (r : Request) (s : V.State)
      → u.jimm_admin ≡ false
      → handle u r s ≡ (err (codef code_unauthorized "unauthorized"), s)
  unfolding handle for_admin
  refused u (add_group_named name) s e = rw e refl
  refused u group_count s e = rw e refl
  refused u (group_by_uuid uuid) s e = rw e refl
  refused u (group_by_name name) s e = rw e refl
  refused u (group_renamed old_name new_name) s e = rw e refl
  refused u (group_removed name) s e = rw e refl
  refused u (group_page page match) s e = rw e refl
  refused u (add_role_named name) s e = rw e refl
  refused u role_count s e = rw e refl
  refused u (role_by_uuid uuid) s e = rw e refl
  refused u (role_by_name name) s e = rw e refl
  refused u (role_renamed old_name new_name) s e = rw e refl
  refused u (role_removed name) s e = rw e refl
  refused u (role_page page match) s e = rw e refl
  refused u identity_count s e = rw e refl
  refused u (identity_page page match) s e = rw e refl

  -- A user who has logged in, whatever way, where the authorization model does not have the user's
  -- name administer JIMM by the stored tuples: each request to the managers of groups, roles and
  -- identities is refused as unauthorized, then and at any later time, and it changes nothing, in the
  -- database or in the authorization model.
  pub logged_in_refused :
      (C : CheckLaws V) (M : LoginManager V) (L : LoginLaws V M) (r : LoginRequest) (u : User)
      (s s' t : V.State) (q : Request)
      → log_in V M r s ≡ (ok u, s')
      → administers V M (V.tuples s) u.name ≡ false
      → handle u q t ≡ (err (codef code_unauthorized "unauthorized"), t)
  logged_in_refused C M L r u s s' t q logged none_granted =
      let (_, _, _, admin) = (login_vouched V C M L r u s s' logged).0.known in
      refused u q t (admin ∙ none_granted)
