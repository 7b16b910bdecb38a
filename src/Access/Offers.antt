-- ===== src/Access/Offers.antt =====
-- GrantOfferAccess, RevokeOfferAccess and GetJimmControllerAccess of
-- internal/jimm/permissions/access.go.
pub mod Complete
mod Tests
use jimm.Prelude.{
  String, Bool, true, false, not, ◌||◌, ◌≡◌, ◌≢◌, refl, sym, ap, ◌∙◌, subst, List, [], ◌∷◌, elem,
  ◌==◌, string_eq, if◌then◌else◌, arith, Bool-cases, inl, inr, eq_iff, ◌⊎◌, ap₂, false≢true,
}
use jimm.Errors.{plain, codef, code_unauthorized, Result, ok, err}
use jimm.Exec.{Exec, pure, raise, lift, continue, ◌>>=◌, ◌>>◌}
use jimm.Exec.Rules.{>>=-eq-ok}
use jimm.Ofga.Names.{
  JujuTag, administrator_relation, consumer_relation, reader_relation, no_relation,
}
use jimm.Ofga.Server.{Server, CheckLaws}
use jimm.User.{
  User, new_user, set_idp_groups, user_tuple, is_administrator, get_application_offer_access,
  set_access, unset_access, wrapping,
}
use jimm.User.Levels.{Available, highest, offer_levels, levels, levels-highest, levels_keeps}
use jimm.Access.{Manager, require}
use jimm.Access.Words.{
  to_offer_relation, to_offer_access_string, determine_access_level_after_grant,
}
use jimm.Access.Effect.{up_to}
use jimm.Access.Cases.{none_admin, none_two, none_held}

-- The switch after the removal: the relation that was to go, or one above it, is still there.
unfoldable pub still_has_access : String → String → Bool
still_has_access target current =
    if target == administrator_relation
    then current == administrator_relation
    else if target == consumer_relation
    then current == administrator_relation || current == consumer_relation
    else if target == reader_relation
    then current == administrator_relation
      || (current == consumer_relation || current == reader_relation)
    else false

module _ (V : Server) (M : Manager V) where
  abbrev set_level : User → JujuTag → String → String → Exec V.State (Unit {0})
  set_level u offer current target =
      if not (target == current)
      then (lift (to_offer_relation target) >>= λ relation. set_access V u offer relation)
      else pure tt

  pub grant_offer_access : User → String → String → String → Exec V.State (Unit {0})
  unfolding codef
  grant_offer_access user url target_name access = do
    identity ← lift (M.new_identity target_name)
    offer ← M.get_application_offer url
    admin ← is_administrator V user offer
    require V admin
    level ← get_application_offer_access V (new_user identity) offer
    set_level (new_user identity) offer (to_offer_access_string level)
        (determine_access_level_after_grant (to_offer_access_string level) access)

  abbrev completely : Bool → Exec V.State (Unit {0})
  completely true = raise (
      plain
        "unable to completely revoke given access due to other relations; try to remove them as well")
  completely false = pure tt

  unfoldable pub revoke_offer_access : User → String → String → String → Exec V.State (Unit {0})
  unfolding codef still_has_access
  revoke_offer_access user url target_name access = do
    identity ← lift (M.new_identity target_name)
    offer ← M.get_application_offer url
    admin ← is_administrator V user offer
    require V admin
    target ← lift (to_offer_relation access)
    wrapping V "failed to unset given access" (unset_access V (new_user identity) offer target)
    current ← get_application_offer_access V (new_user identity) offer
    completely (still_has_access target current)

  abbrev superuser_or_login : Bool → String
  superuser_or_login admin = if admin then "superuser" else "login"

  -- openfga.NewUserFromTag
  unfoldable pub new_user_from_tag : String → Exec V.State User
  unfolding wrapping
  new_user_from_tag name = do
    identity ← lift (M.new_identity name)
    groups ← wrapping V "failed to fetch IDP groups" (M.fetch_groups identity)
    pure (set_idp_groups (new_user identity) groups)

  abbrev other_access : String → Exec V.State String
  other_access name = do
    target ← new_user_from_tag name
    admin ← wrapping V "failed to check access rights" (is_administrator V target M.jimm_tag)
    pure (superuser_or_login admin)

  pub get_jimm_controller_access : User → String → Exec V.State String
  unfolding codef new_user_from_tag
  get_jimm_controller_access user name =
      if user.name == name
      then pure (superuser_or_login user.jimm_admin)
      else if not user.jimm_admin
      then raise (codef code_unauthorized "unauthorized")
      else other_access name
