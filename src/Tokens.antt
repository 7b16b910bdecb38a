-- ===== src/Tokens.antt =====
-- internal/jimm/jujuauth: logintokens.go and factory.go, the tokens by which Juju controllers learn
-- what a user may do.
pub mod Factory
pub mod Limit
pub mod Entries
pub mod Claims
pub mod Ssh
mod Tests
use jimm.Prelude.{
  ℕ, suc, leb, String, Bool, true, false, not, Option, none, some, List, [], ◌∷◌, ◌==◌, ◌&&◌,
  string_eq, put, if◌then◌else◌,
}
use jimm.Errors.{Error, plain, wrapf, error_code, code_not_found, Value, Result, ok, err, spent}
use jimm.Exec.{Exec, pure, raise, lift, attempt, ◌>>=◌, ◌>>◌}
use jimm.Ofga.Names.{JujuTag, model_kind, offer_kind}
use jimm.Ofga.Server.{Server}
use jimm.User.{User, resource_tag, wrapped}
use jimm.Access.{
  Manager, get_user_model_access, get_user_controller_access, get_user_cloud_access,
  get_user_application_offer_access,
}
use jimm.Access.Permissions.{Cache, Answer, returned, panicked, check_permission}

-- jimmjwx.JWTParams
pub record JwtParams : Type 0 where
  pub controller : String
  pub user : String
  pub access : Cache
  -- the extra claims, which here are texts
  pub extra_claims : List (String × String)

-- GeneratorDatabase, JWTService, and the functions of juju/names and juju/version.
pub record Services (V : Server) : Type 0 where
  -- GetController: the tags of the clouds of the controller's regions
  pub get_controller : JujuTag → Exec V.State (List JujuTag)
  pub new_jwt : JwtParams → Exec V.State String
  pub parse_tag : String → Result JujuTag
  pub tag_text : JujuTag → String
  -- whether the first version is below the second; `none` where it cannot be parsed
  pub version_less : String → String → Option Bool

abbrev pub min_juju_version_for_caller_token : String
min_juju_version_for_caller_token = "3.6.24"

-- LoginTokenGenerator; a tag with an empty id is one that was not set.
pub record LoginTokenGenerator : Type 0 where
  pub access_map_cache : Cache
  pub mt : JujuTag
  pub ct : JujuTag
  pub user : Option User
  pub call_count : ℕ

abbrev no_tag : JujuTag
no_tag = record { kind = ""; id = "" }

unfoldable pub new_login_token_generator : LoginTokenGenerator
new_login_token_generator = record {
  access_map_cache = none;
  mt = no_tag;
  ct = no_tag;
  user = none;
  call_count = 0;
}

-- A token, or the panic of a write to a nil map.
pub data Minted : Type 0 where
  token : String → Minted
  panic : Minted

-- the keys of a Go map of clouds: each once
unfoldable pub distinct : List JujuTag → List JujuTag
distinct [] = []
distinct (t ∷ ts) = t ∷ without_tag t (distinct ts)
  where
    without_tag : JujuTag → List JujuTag → List JujuTag
    without_tag t [] = []
    without_tag t (u ∷ us) =
        let rest = without_tag t us in if u.kind == t.kind && u.id == t.id then rest else u ∷ rest

-- A write to a map that is not nil, as it is wherever the code writes one.
abbrev pub enter : String → String → Cache → Cache
enter key value none = none
enter key value (some m) = some (put key value m)

pub record Session (V : Server) : Type 0 where
  pub generator : LoginTokenGenerator
  pub server : V.State

abbrev pub Act : Server → Type 0 → Type 0
Act V A = Exec (Session V) A

module _ (V : Server) where
  unfoldable pub on_server : {A : Type 0} → Exec V.State A → Act V A
  on_server m s = let (r, t) = m s.server in (r, record s { server = t })

  unfoldable pub get : {A : Type 0} → (LoginTokenGenerator → A) → Act V A
  get f s = (ok (f s.generator), s)

  unfoldable pub modify : (LoginTokenGenerator → LoginTokenGenerator) → Act V (Unit {0})
  modify f s = (ok tt, record s { generator = f s.generator })

  -- an error that comes back with what was tried
  unfoldable pub wrapping : {A : Type 0} → String → Exec V.State A → Act V A
  wrapping context m s = let (r, t) = m s.server in (wrapped context r, record s { server = t })

  abbrev pub need : Bool → String → Act V (Unit {0})
  need true context = pure tt
  need false context = raise (plain context)

module _ (V : Server) (M : Manager V) (T : Services V) where
  unfoldable pub set_tags : JujuTag → JujuTag → Act V (Unit {0})
  set_tags mt ct = modify V (λ g. record g { mt = mt; ct = ct })

  unfoldable pub get_user : Act V (Option JujuTag)
  get_user = get V (λ g. elim g.user [ none ↦ none | some u ↦ some (resource_tag u) ])

  unfoldable pub claim : JujuTag → String → Act V (Unit {0})
  claim tag access =
      modify V
        (λ g. record g { access_map_cache = enter (T.tag_text tag) access g.access_map_cache })

  -- NewJWT, for what the generator holds
  unfoldable pub issue : User → Act V String
  issue user = do
    g ← get V (λ g. g)
    on_server V (
        T.new_jwt (record {
          controller = g.ct.id;
          user = T.tag_text (resource_tag user);
          access = g.access_map_cache;
          extra_claims = [];
        }))

  unfoldable pub claim_clouds : User → List JujuTag → Act V (Unit {0})
  unfolding claim
  claim_clouds user [] = pure tt
  claim_clouds user (cloud ∷ clouds) = do
    access ← wrapping V "failed to check user's cloud access" (get_user_cloud_access V M user cloud)
    claim cloud access
    claim_clouds user clouds

  unfoldable pub login_claims : User → Act V (Unit {0})
  unfolding claim claim_clouds distinct
  login_claims user = do
    mt ← get V (λ g. g.mt)
    need V (not (mt.id == "")) "model not set"
    model_access ← on_server V (get_user_model_access V M user mt)
    claim mt model_access
    ct ← get V (λ g. g.ct)
    need V (not (ct.id == "")) "controller not set"
    controller_access ← on_server V (get_user_controller_access V M user ct)
    claim ct controller_access
    clouds ← wrapping V "failed to fetch controller" (T.get_controller ct)
    claim_clouds user (distinct clouds)

  unfoldable pub make_login_token : Option User → Act V String
  unfolding login_claims issue
  make_login_token none = raise (plain "user not specified")
  make_login_token (some user) = do
    modify V (λ g. record g { user = some user; access_map_cache = some [] })
    login_claims user
    issue user

  abbrev pub checked : User → Answer → Act V Minted
  checked user panicked = pure panic
  checked user (returned cache (some e)) =
      modify V (λ g. record g { access_map_cache = cache }) >> raise e
  checked user (returned cache none) = do
    modify V (λ g. record g { access_map_cache = cache })
    jwt ← issue user
    pure (token jwt)

  abbrev pub assert_for : Option User → Option (List (String × Value)) → Act V Minted
  assert_for none permissions = raise (plain "User authorization missing.")
  assert_for (some user) none = issue user >>= λ jwt. pure (token jwt)
  assert_for (some user) (some permissions) = do
    cache ← get V (λ g. g.access_map_cache)
    answer ← on_server V (check_permission V T.parse_tag user cache permissions)
    checked user answer

  abbrev pub counted : Bool → Option (List (String × Value)) → Act V Minted
  counted true permissions = raise (plain "Permission check limit exceeded")
  counted false permissions = do
    modify V (λ g. record g { call_count = suc g.call_count })
    user ← get V (λ g. g.user)
    assert_for user permissions

  -- A nil permission map is `none`.
  unfoldable pub make_token : Option (List (String × Value)) → Act V Minted
  unfolding issue check_permission
  make_token permissions = get V (λ g. leb 10 g.call_count) >>= λ full. counted full permissions
