-- ===== src/Access.antt =====
-- internal/jimm/permissions/access.go: granting and revoking access. The database is an interface:
-- the calls of internal/db that these methods make.
pub mod Words
pub mod Guard
pub mod Effect
pub mod Offers
pub mod Permissions
pub mod Orphans
pub mod Cases
pub mod Needs
pub mod Steps
pub mod Grants
pub mod Revocations
mod Tests
pub mod Revoke
use jimm.Prelude.{
  ℕ, String, Bool, true, false, not, ◌&&◌, ◌||◌, Option, none, some, List, [], ◌∷◌, ◌==◌, string_eq,
  if◌then◌else◌,
}
use jimm.Errors.{
  Error, plain, wrapf, codef, code_unauthorized, code_bad_request, Result, ok, err, spent,
}
use jimm.Exec.{Exec, pure, raise, lift, ◌>>=◌, ◌>>◌}
use jimm.Ofga.Names.{
  JujuTag, user_kind, administrator_relation, writer_relation, reader_relation, consumer_relation,
  can_addmodel_relation, audit_log_viewer_relation, no_relation,
}
use jimm.Ofga.Server.{Server}
use jimm.User.{
  User, new_user, set_idp_groups, is_administrator, has_model_relation, get_cloud_access,
  get_model_access, get_controller_access, get_application_offer_access, set_access, unset_access,
  unset_accesses, wrapping,
}
use Words.{
  to_cloud_relation, to_model_relation, to_offer_relation, to_offer_access_string,
  to_controller_access_string, to_cloud_access_string, to_model_access_string,
  determine_access_level_after_grant,
}

-- PermissionManager: the controller tag of JIMM itself, its database and its source of groups.
pub record Manager (V : Server) : Type 0 where
  pub jimm_tag : JujuTag
  -- store.GetIdentity, by name
  pub get_identity : String → Exec V.State (Unit {0})
  -- store.GetApplicationOffer, by URL: the offer's tag
  pub get_application_offer : String → Exec V.State JujuTag
  -- dbmodel.NewIdentity: the name that the identity has
  pub new_identity : String → Result String
  -- groupFetcher.FetchGroups
  pub fetch_groups : String → Exec V.State (List String)

-- GrantCloudAccess: the inner switches, true where the code goes on to set the relation.
unfoldable pub cloud_grant_needed : String → String → Bool
cloud_grant_needed target current =
    if target == can_addmodel_relation
    then current == no_relation
    else if target == administrator_relation
    then current == no_relation || current == can_addmodel_relation
    else true

unfoldable pub model_grant_needed : String → String → Bool
model_grant_needed target current =
    if target == reader_relation
    then current == no_relation
    else if target == writer_relation
    then current == no_relation || current == reader_relation
    else if target == administrator_relation
    then current == no_relation || (current == reader_relation || current == writer_relation)
    else true

-- RevokeCloudAccess: the relations to unset, or none where the code returns at once.
unfoldable pub cloud_revocation : String → String → Option (List String)
cloud_revocation target current =
    if target == can_addmodel_relation
    then (if current == no_relation
        then none
        else some (can_addmodel_relation ∷ administrator_relation ∷ []))
    else if target == administrator_relation
    then (if current == no_relation || current == can_addmodel_relation
        then none
        else some (administrator_relation ∷ []))
    else some []

-- RevokeModelAccess: the relation to set before, and the relations to unset.
unfoldable pub model_revocation : String → String → Option (String × List String)
model_revocation target current =
    if target == reader_relation
    then (if current == no_relation
        then none
        else some (no_relation, reader_relation ∷ writer_relation ∷ administrator_relation ∷ []))
    else if target == writer_relation
    then (if current == no_relation || current == reader_relation
        then none
        else some (reader_relation, writer_relation ∷ administrator_relation ∷ []))
    else if target == administrator_relation
    then (if current == no_relation || (current == reader_relation || current == writer_relation)
        then none
        else some (writer_relation, administrator_relation ∷ []))
    else some (no_relation, [])

-- An access word that is not recognised is a bad request.
abbrev pub recognised : Result String → Result String
recognised (err e) = err (codef code_bad_request "failed to recognize given access")
recognised r = r

module _ (V : Server) where
  abbrev pub require : Bool → Exec V.State (Unit {0})
  require true = pure tt
  require false = raise (codef code_unauthorized "unauthorized")

  abbrev pub set_if : Bool → String → User → JujuTag → String → Exec V.State (Unit {0})
  set_if true context u resource relation = wrapping V context (set_access V u resource relation)
  set_if false context u resource relation = pure tt

  abbrev pub unset_cloud : ℕ → User → JujuTag → Option (List String) → Exec V.State (Unit {0})
  unset_cloud fuel u cloud none = pure tt
  unset_cloud fuel u cloud (some relations) =
      wrapping V "failed to unset cloud access" (unset_accesses V fuel u cloud relations)

  abbrev pub downgrade_model :
      ℕ → User → JujuTag → Option (String × List String) → Exec V.State (Unit {0})
  downgrade_model fuel u model none = pure tt
  downgrade_model fuel u model (some (relation, relations)) = do
    set_if (not (relation == no_relation)) "failed to set model access" u model relation
    wrapping V "failed to unset model access" (unset_accesses V fuel u model relations)

module _ (V : Server) (M : Manager V) where
  unfoldable pub grant_cloud_access : User → JujuTag → String → String → Exec V.State (Unit {0})
  unfolding codef
  grant_cloud_access user cloud target_name access = do
    target ← lift (recognised (to_cloud_relation access))
    admin ← is_administrator V user cloud
    require V admin
    M.get_identity target_name
    current ← get_cloud_access V (new_user target_name) cloud
    set_if V (cloud_grant_needed target current) "failed to set cloud access" (new_user target_name)
        cloud target

  unfoldable pub revoke_cloud_access :
      ℕ → User → JujuTag → String → String → Exec V.State (Unit {0})
  unfolding codef
  revoke_cloud_access fuel user cloud target_name access = do
    target ← lift (recognised (to_cloud_relation access))
    admin ← is_administrator V user cloud
    require V admin
    M.get_identity target_name
    current ← get_cloud_access V (new_user target_name) cloud
    unset_cloud V fuel (new_user target_name) cloud (cloud_revocation target current)

  unfoldable pub grant_model_access : User → JujuTag → String → String → Exec V.State (Unit {0})
  unfolding codef
  grant_model_access user model target_name access = do
    target ← lift (recognised (to_model_relation access))
    admin ← has_model_relation V user model administrator_relation
    require V admin
    M.get_identity target_name
    current ← get_model_access V (new_user target_name) model
    set_if V (model_grant_needed target current) "failed to set model access" (new_user target_name)
        model target

  unfoldable pub revoke_model_access :
      ℕ → User → JujuTag → String → String → Exec V.State (Unit {0})
  unfolding codef
  revoke_model_access fuel user model target_name access = do
    target ← lift (recognised (to_model_relation access))
    admin ← has_model_relation V user model administrator_relation
    require V admin
    M.get_identity target_name
    current ← get_model_access V (new_user target_name) model
    downgrade_model V fuel (new_user target_name) model (model_revocation target current)

  -- GetUserControllerAccess, GetUserCloudAccess, GetUserModelAccess, GetUserApplicationOfferAccess
  unfoldable pub get_user_controller_access : User → JujuTag → Exec V.State String
  get_user_controller_access user controller = do
    level ← get_controller_access V user controller
    pure (to_controller_access_string level)

  unfoldable pub get_user_cloud_access : User → JujuTag → Exec V.State String
  get_user_cloud_access user cloud = do
    level ← get_cloud_access V user cloud
    pure (to_cloud_access_string level)

  unfoldable pub get_user_model_access : User → JujuTag → Exec V.State String
  get_user_model_access user model = do
    level ← get_model_access V user model
    pure (to_model_access_string level)

  unfoldable pub get_user_application_offer_access : User → JujuTag → Exec V.State String
  get_user_application_offer_access user offer = do
    level ← get_application_offer_access V user offer
    pure (to_offer_access_string level)

  pub grant_audit_log_access : User → String → Exec V.State (Unit {0})
  unfolding codef
  grant_audit_log_access user target_name = do
    access ← get_controller_access V user M.jimm_tag
    require V (access == administrator_relation)
    M.get_identity target_name
    set_access V (new_user target_name) M.jimm_tag audit_log_viewer_relation

  pub revoke_audit_log_access : User → String → Exec V.State (Unit {0})
  unfolding codef
  revoke_audit_log_access user target_name = do
    access ← get_controller_access V user M.jimm_tag
    require V (access == administrator_relation)
    M.get_identity target_name
    unset_access V (new_user target_name) M.jimm_tag audit_log_viewer_relation
