-- ===== src/Login.antt =====
-- internal/jimm/login/login.go: the ways to log in, over an authenticator and the authorization model.
pub mod Vouched
pub mod Service
pub mod World
mod Tests
use Prim.Native.String.{◌++◌}
use jimm.Prelude.{
  ℕ, String, Bool, true, false, not, ◌||◌, Option, none, some, List, ◌==◌, string_eq, if◌then◌else◌,
}
use jimm.Errors.{
  Error, plain, codef, codef_wrap, error_code, code_unauthorized, Result, ok, err, spent,
}
use jimm.Exec.{Exec, pure, raise, lift, attempt, continue, ◌>>=◌, ◌>>◌}
use jimm.Ofga.Names.{JujuTag}
use jimm.Ofga.Server.{Server}
use jimm.User.{User, new_user, set_idp_groups, is_administrator, user_check}
use jimm.Auth.{
  Jwt, Token, IdentityClaims, Identity, Identities, OAuthAuthenticator, SessionContext,
  code_session_token_invalid, code_fatal_login_error,
}
use jimm.Auth.Service.{session_groups_from_token}

-- What pkg/names/service_account.go takes from names.UserTag and strings.
pub record UserNames : Type 0 where
  pub has_suffix : String → String → Bool
  pub is_valid_user : String → Bool
  pub domain : String → String

-- LoginManager: the tag of JIMM and what it works with.
pub record LoginManager (V : Server) : Type 0 where
  pub store : Identities V
  pub oauth_authenticator : OAuthAuthenticator V
  pub jimm_tag : JujuTag
  pub user_names : UserNames

abbrev pub service_account_domain : String
service_account_domain = "serviceaccount"

module _ (N : UserNames) where
  unfoldable pub is_valid_service_account_id : String → Bool
  is_valid_service_account_id id =
      if not (N.is_valid_user id) then false else N.domain id == service_account_domain

  abbrev with_domain : String → String
  with_domain id =
      if not (N.has_suffix id ("@" ++ service_account_domain))
      then id ++ ("@" ++ service_account_domain)
      else id

  unfoldable pub ensure_valid_service_account_id : String → Result String
  unfolding is_valid_service_account_id
  ensure_valid_service_account_id id =
      if not (is_valid_service_account_id (with_domain id))
      then err (plain "invalid client ID")
      else ok (with_domain id)

-- The error of a call behind a code.
abbrev pub coded_as {ℓ} : {A : Type ℓ} → String → Result A → Result A
coded_as code (ok a) = ok a
coded_as code (err e) = err (codef_wrap code e)
coded_as code spent = spent

unfoldable pub coding {ℓ} : {S : Type 0} {A : Type ℓ} → String → Exec S A → Exec S A
coding code m s = let (r, s') = m s in (coded_as code r, s')

module _ (V : Server) (M : LoginManager V) where
  -- GetDeviceSessionToken
  unfoldable pub get_device_session_token : String → Exec V.State String
  get_device_session_token response = do
    token ← M.oauth_authenticator.device_access_token response
    claims ← M.oauth_authenticator.verify_and_extract_identity_claims token
    M.oauth_authenticator.update_identity claims.email token
    M.oauth_authenticator.mint_session_token_with_groups claims.email claims.groups

  -- The identity that comes with the user is the row that was read or created.
  unfoldable pub get_or_create_identity : String → Exec V.State (User × Identity)
  get_or_create_identity identifier = do
    identity ← lift (M.store.new_identity identifier)
    row ← M.store.get_identity identity
    is_jimm_admin ← is_administrator V (new_user row.name) M.jimm_tag
    pure (record (new_user row.name) { jimm_admin = is_jimm_admin }, row)

  unfoldable pub update_last_login : Identity → Exec V.State (Unit {0})
  update_last_login identity = do
    now ← M.store.now
    M.store.update_identity (record identity { last_login = some now })

  unfoldable pub user_login : String → Exec V.State User
  unfolding get_or_create_identity update_last_login coding
  user_login identifier = do
    (user, identity) ← coding code_unauthorized (get_or_create_identity identifier)
    update_last_login identity
    pure user

  -- UserLogin, and then the groups that the login has verified
  abbrev pub in_groups : List String → User → Exec V.State User
  in_groups groups user = pure (set_idp_groups user groups)

  unfoldable pub login_client_credentials : String → String → Exec V.State User
  unfolding ensure_valid_service_account_id user_login coding set_idp_groups
  login_client_credentials client_id client_secret = do
    client_id_with_domain ←
        lift
          (coded_as code_fatal_login_error (ensure_valid_service_account_id M.user_names client_id))
    groups ←
        coding code_fatal_login_error
          (M.oauth_authenticator.verify_client_credentials client_id client_secret)
    user ← coding code_fatal_login_error (user_login client_id_with_domain)
    in_groups groups user

  -- An invalid session token is reported as it is.
  abbrev pub token_answer : Result Jwt → Result Jwt
  token_answer (ok t) = ok t
  token_answer (err e) =
      if error_code e == code_session_token_invalid
      then err e
      else err (codef_wrap code_fatal_login_error e)
  token_answer spent = spent

  -- LoginWithSessionToken, once the token has been verified or refused
  unfoldable pub login_verified : Result Jwt → Exec V.State User
  unfolding user_login coding set_idp_groups session_groups_from_token error_code
  login_verified answer = do
    jwt_token ← lift (token_answer answer)
    groups ← lift (coded_as code_fatal_login_error (session_groups_from_token jwt_token))
    user ← coding code_fatal_login_error (user_login jwt_token.subject)
    in_groups groups user

  unfoldable pub login_with_session_token : String → Exec V.State User
  unfolding login_verified
  login_with_session_token session_token =
      attempt (M.oauth_authenticator.verify_session_token session_token) >>= login_verified

  unfoldable pub login_with_session_cookie : SessionContext → String → Exec V.State User
  unfolding user_login set_idp_groups
  login_with_session_cookie ctx identity_id =
      if identity_id == ""
      then raise (plain "missing cookie identity")
      else (do user ← user_login identity_id; in_groups ctx.session_groups user)
