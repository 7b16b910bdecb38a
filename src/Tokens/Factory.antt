-- ===== src/Tokens/Factory.antt =====
-- internal/jimm/jujuauth/factory.go: tokens that are made outside a connection.
use jimm.Prelude.{
  String, Bool, false, not, Option, none, some, List, [], ◌∷◌, ◌==◌, ◌&&◌, string_eq, put,
  if◌then◌else◌,
}
use jimm.Errors.{plain, wrapf, error_code, code_not_found, Result, ok, err, spent}
use jimm.Exec.{Exec, pure, raise, lift, attempt, ◌>>=◌, ◌>>◌}
use jimm.Ofga.Names.{JujuTag, model_kind, offer_kind}
use jimm.Ofga.Server.{Server}
use jimm.User.{User, resource_tag, wrapped}
use jimm.Access.{
  Manager, get_user_model_access, get_user_controller_access, get_user_cloud_access,
  get_user_application_offer_access,
}
use jimm.Tokens.{
  Services, min_juju_version_for_caller_token, new_login_token_generator, distinct, set_tags,
  make_login_token,
}

module _ (V : Server) (M : Manager V) (T : Services V) where
  abbrev model_claims : List JujuTag → List (String × String) → List (String × String)
  model_claims [] m = m
  model_claims (t ∷ ts) m =
      model_claims ts
        (if t.kind == model_kind && not (t.id == "") then put (T.tag_text t) "admin" m else m)

  unfoldable pub make_superuser_token : JujuTag → Option User → List JujuTag → Exec V.State String
  make_superuser_token ct none resource_tags = raise (plain "user not specified")
  make_superuser_token ct (some user) resource_tags = T.new_jwt (record {
    controller = ct.id;
    user = T.tag_text (resource_tag user);
    access = some (model_claims resource_tags (put (T.tag_text ct) "superuser" []));
    extra_claims = [];
  })

  unfoldable pub resolve_target_access : User → JujuTag → Exec V.State String
  resolve_target_access user target =
      if target.kind == model_kind
      then get_user_model_access V M user target
      else if target.kind == offer_kind
      then get_user_application_offer_access V M user target
      else raise (plain "unsupported resource tag type")

  abbrev put_some : JujuTag → String → List (String × String) → List (String × String)
  put_some tag access m = if access == "" then m else put (T.tag_text tag) access m

  unfoldable pub target_claims :
      User → List JujuTag → List (String × String) → Exec V.State (List (String × String))
  unfolding resolve_target_access
  target_claims user [] m = pure m
  target_claims user (t ∷ ts) m =
      resolve_target_access user t >>= λ access. target_claims user ts (put_some t access m)

  abbrev wrapped_call : {A : Type 0} → String → Exec V.State A → Exec V.State A
  wrapped_call context m s = let (r, t) = m s in (wrapped context r, t)

  unfoldable pub cloud_claims :
      User → List JujuTag → List (String × String) → Exec V.State (List (String × String))
  cloud_claims user [] m = pure m
  cloud_claims user (cloud ∷ clouds) m =
      wrapped_call "failed to check user's cloud access" (get_user_cloud_access V M user cloud)
      >>= λ access. cloud_claims user clouds (put_some cloud access m)

  -- buildAccessMap, for the clouds of the controller's regions
  unfoldable pub build_access_map :
      User → List JujuTag → JujuTag → List JujuTag → Exec V.State (List (String × String))
  unfolding target_claims cloud_claims distinct
  build_access_map user resource_tags ct clouds = do
    targets ← target_claims user resource_tags []
    controller_access ← get_user_controller_access V M user ct
    cloud_claims user (distinct clouds) (put (T.tag_text ct) controller_access targets)

  -- the clouds of a stored controller, or those of the one that was passed in
  abbrev clouds_of : List JujuTag → Result (List JujuTag) → Exec V.State (List JujuTag)
  clouds_of given (ok clouds) = pure clouds
  clouds_of given (err e) =
      if error_code e == code_not_found
      then pure given
      else raise (wrapf "failed to fetch controller for caller token" e)
  clouds_of given spent = lift spent

  unfoldable pub new_caller_scoped_login_token :
      List JujuTag → JujuTag → List JujuTag → User → Exec V.State String
  unfolding build_access_map error_code wrapf
  new_caller_scoped_login_token resource_tags ct given user = do
    found ← attempt (T.get_controller ct)
    clouds ← clouds_of given found
    access ← build_access_map user resource_tags ct clouds
    T.new_jwt (record {
      controller = ct.id;
      user = T.tag_text (resource_tag user);
      access = some access;
      extra_claims = [];
    })

  abbrev honours_models : Option Bool → Bool
  honours_models none = false
  honours_models (some older) = not older

  -- A controller of an older or unknown version gets a superuser's token.
  unfoldable pub new_caller_login_token :
      List JujuTag → JujuTag → String → List JujuTag → User → Exec V.State String
  unfolding new_caller_scoped_login_token make_superuser_token
  new_caller_login_token resource_tags ct agent_version given user =
      if honours_models (T.version_less agent_version min_juju_version_for_caller_token)
      then new_caller_scoped_login_token resource_tags ct given user
      else make_superuser_token ct (some user) resource_tags

  unfoldable pub new_login_token : JujuTag → JujuTag → Option User → Exec V.State String
  unfolding make_login_token set_tags new_login_token_generator
  new_login_token mt ct user t =
      let (r, s) =
        (set_tags V M T mt ct >> make_login_token V M T user)
          (record { generator = new_login_token_generator; server = t }) in
      (r, s.server)

  -- The model tag of a login without one has an empty id.
  unfoldable pub new_superuser_login_token : JujuTag → JujuTag → Option User → Exec V.State String
  unfolding make_superuser_token
  new_superuser_login_token mt ct user =
      make_superuser_token ct user (if mt.id == "" then [] else mt ∷ [])
