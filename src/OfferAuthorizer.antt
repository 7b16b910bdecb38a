-- ===== src/OfferAuthorizer.antt =====
-- internal/jimm/offer/authorizer.go: whether a user may consume an application offer, outside a session.
pub mod Sound
mod Tests
use jimm.Prelude.{
  ◌≡◌, ◌⊎◌, inl, inr, refl, sym, ap, ◌∙◌, subst, String, Bool, true, false, Option, none, some,
  List, [], if◌then◌else◌,
}
use jimm.Errors.{Error, Result, ok, err, spent}
use jimm.Exec.{Exec, pure, lift, attempt, ◌>>=◌}
use jimm.Exec.Triples.{Good, Keeps, Any, pure-Keeps, lift-Keeps, if-Keeps, forget-Keeps, >>=-Keeps}
use jimm.Ofga.Names.{JujuTag, consumer_relation}
use jimm.Ofga.Tuples.{Tuple}
use jimm.Ofga.Server.{Server, CheckLaws}
use jimm.User.{
  User, new_user, set_idp_groups, user_tuple, contextual_tuples, user_check,
  is_application_offer_consumer,
}
use jimm.User.Levels.{user_check_keeps, user_check_answer}

-- The database and the source of groups, which may be nil.
pub record OfferStore (V : Server) : Type 0 where
  -- GetApplicationOffer: the UUID of the offer's model
  pub get_application_offer : JujuTag → Exec V.State String
  -- GetUserMapping, by model and local user: the external user
  pub get_user_mapping : String → String → Exec V.State String
  pub new_identity : String → Result String
  pub idp_group_fetcher : Option (String → Exec V.State (List String))
  -- names.UserTag.IsLocal
  pub is_local : JujuTag → Bool

module _ (V : Server) (D : OfferStore V) where
  unfoldable pub resolve_local_user_to_external_user : String → JujuTag → Exec V.State String
  resolve_local_user_to_external_user local_username offer = do
    model ← D.get_application_offer offer
    D.get_user_mapping model local_username

  abbrev pub found_groups : Result (List String) → Exec V.State (List String)
  found_groups (ok groups) = pure groups
  found_groups (err e) = pure []
  found_groups spent = lift spent

  -- An error of the fetcher leaves the user without groups.
  unfoldable pub groups_of :
      Option (String → Exec V.State (List String)) → String → Exec V.State (List String)
  groups_of none identifier s = (ok [], s)
  groups_of (some fetch) identifier s = (attempt (fetch identifier) >>= found_groups) s

  unfoldable pub is_user_consumer_for_offer : JujuTag → JujuTag → Exec V.State Bool
  unfolding resolve_local_user_to_external_user groups_of set_idp_groups
  is_user_consumer_for_offer user offer = do
    identifier ←
        if D.is_local user then resolve_local_user_to_external_user user.id offer else pure user.id
    name ← lift (D.new_identity identifier)
    groups ← groups_of D.idp_group_fetcher identifier
    is_application_offer_consumer V (set_idp_groups (new_user name) groups) offer
