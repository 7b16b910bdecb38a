-- ===== src/Auth/Service.antt =====
-- internal/auth/auth.go: AuthenticationService, which verifies identities and mints session tokens.
use jimm.Prelude.{
  ℕ, ◌+◌, String, Bool, Option, none, some, List, [], ◌∷◌, find, put, ◌==◌, nat_eq, string_eq,
  if◌then◌else◌,
}
use jimm.Errors.{plain, codef, code_unauthorized, Result, ok, err, spent}
use jimm.Exec.{Exec, pure, raise, lift, attempt, ◌>>=◌}
use jimm.Ofga.Server.{Server}
use jimm.User.{wrapped}
use jimm.Auth.{
  ClaimValue, text, texts, Jwt, Token, IdToken, IdentityClaims, Identities, Libraries,
  OAuthAuthenticator, hidden, session_token_groups_claim_key, code_session_token_invalid,
}
use jimm.Auth.Groups.{claimed_groups, within_limit, token_groups}

-- The configuration of AuthenticationService
pub record AuthenticationService : Type 0 where
  pub session_token_expiry : ℕ
  pub jwt_session_key : String
  pub group_claim_key : String
  -- in seconds
  pub session_cookie_max_age : ℕ
  pub secure_cookies : Bool

abbrev pub migration_token_expiry : ℕ
migration_token_expiry = 10800

-- An error whose underlying error is not kept.
unfoldable pub hiding {ℓ} : {S : Type 0} {A : Type ℓ} → String → Exec S A → Exec S A
hiding context m s = let (r, s') = m s in (hidden context r, s')

abbrev pub text_of : String → Option ClaimValue → Result String
text_of missing none = err (plain missing)
text_of missing (some (text s)) = ok s
text_of missing (some other) = err (plain "email claim is not a string")

abbrev pub email_in : Result (List (String × ClaimValue)) → Result String
email_in (ok claims) = text_of "missing email claim" (find "email" claims)
email_in (err e) = err (plain "failed to extract claims")
email_in spent = spent

unfoldable pub extract_email_claim : IdToken → Result String
extract_email_claim token = email_in token.claims

-- SessionGroupsFromToken
unfoldable pub session_groups_from_token : Jwt → Result (List String)
unfolding token_groups
session_groups_from_token t = token_groups (find session_token_groups_claim_key t.claims)

-- The token's claims: no groups where there are none.
abbrev pub groups_claim : List String → List (String × ClaimValue)
groups_claim [] = []
groups_claim (g ∷ gs) = put session_token_groups_claim_key (texts (g ∷ gs)) []

module _ (V : Server) (D : Identities V) (L : Libraries V) (C : AuthenticationService) where
  abbrev pub claim_in : Option ClaimValue → Result (List String)
  claim_in none = ok []
  claim_in (some claim) = within_limit (claimed_groups claim)

  abbrev pub claims_of : Result Jwt → Result (List String)
  claims_of (ok jwt) = claim_in (find C.group_claim_key jwt.claims)
  claims_of (err e) = err (plain "failed to parse access token")
  claims_of spent = spent

  unfoldable pub extract_groups_from_access_token : Token → Result (List String)
  unfolding claimed_groups
  extract_groups_from_access_token t =
      if t.access_token == ""
      then err (plain "access token is empty")
      else if C.group_claim_key == ""
      then ok []
      else claims_of (L.parse_insecure t.access_token)

  unfoldable pub extract_claims : IdToken → Token → Exec V.State IdentityClaims
  unfolding extract_email_claim extract_groups_from_access_token
  extract_claims id_token access_token = do
    email ← lift (extract_email_claim id_token)
    groups ← lift (
        hidden "failed to extract groups from access token"
          (extract_groups_from_access_token access_token))
    pure (record { subject = id_token.subject; email = email; groups = groups })

  abbrev pub raw_id_token : Option String → Result String
  raw_id_token none = err (plain "failed to extract id token")
  raw_id_token (some raw) = ok raw

  unfoldable pub verify_and_extract_identity_claims : Token → Exec V.State IdentityClaims
  unfolding extract_claims
  verify_and_extract_identity_claims t = do
    raw ← lift (raw_id_token t.id_token)
    id_token ← hiding "failed to verify id token" (L.verify_id_token raw)
    extract_claims id_token t

  unfoldable pub device_access_token : String → Exec V.State Token
  device_access_token code = hiding "device access token call failed" (L.device_access_token code)

  -- A signed token that expires `lifetime` from now.
  abbrev pub signed : ℕ → String → List String → Exec V.State String
  signed lifetime subject groups = do
    now ← D.now
    raw ← lift (
        hidden "failed to sign access token" (
          L.sign C.jwt_session_key (record {
            subject = subject;
            expiration = now + lifetime;
            claims = groups_claim groups;
          })))
    pure (L.encode_base64 raw)

  unfoldable pub mint_session_token_with_groups : String → List String → Exec V.State String
  mint_session_token_with_groups email groups = signed C.session_token_expiry email groups

  unfoldable pub new_migration_token : String → List String → Exec V.State String
  new_migration_token username groups = signed migration_token_expiry username groups

  -- The answers of jwt.Parse and mail.ParseAddress
  abbrev pub parse_answer : Result Jwt → Result Jwt
  parse_answer (ok t) = ok t
  parse_answer (err e) =
      if L.is_expired e
      then err (codef code_session_token_invalid "JIMM session token expired")
      else err e
  parse_answer spent = spent

  abbrev pub address_answer : Jwt → Result (Unit {0}) → Result Jwt
  address_answer t (ok u) = ok t
  address_answer t (err e) = err (codef code_session_token_invalid "failed to parse email")
  address_answer t spent = spent

  unfoldable pub verify_session_token : String → Exec V.State Jwt
  unfolding codef
  verify_session_token token =
      if token == "" then raise (codef code_session_token_invalid "no token presented") else (do
        raw ← lift (wrapped "failed to decode token" (L.decode_base64 token))
        now ← D.now
        t ← lift (parse_answer (L.parse C.jwt_session_key now raw))
        lift (address_answer t (L.parse_address t.subject)))

  -- UpdateIdentity
  unfoldable pub update_identity : String → Token → Exec V.State (Unit {0})
  update_identity email t = do
    identity ← lift (D.new_identity email)
    row ← D.get_identity identity
    D.update_identity (record row {
      access_token = t.access_token;
      refresh_token = t.refresh_token;
      access_token_expiry = t.expiry;
      access_token_type = t.token_type;
    })

  abbrev pub credentials_token : Result Token → Result Token
  credentials_token (ok t) = ok t
  credentials_token (err e) = err (codef code_unauthorized "invalid client credentials")
  credentials_token spent = spent

  unfoldable pub verify_client_credentials : String → String → Exec V.State (List String)
  unfolding extract_groups_from_access_token
  verify_client_credentials client_id client_secret = do
    answer ← attempt (L.client_token client_id client_secret)
    t ← lift (credentials_token answer)
    lift (hidden "failed to extract groups from access token" (extract_groups_from_access_token t))

  -- The service as the login manager takes it.
  abbrev pub authenticator : OAuthAuthenticator V
  authenticator = record {
    device_access_token = device_access_token;
    verify_and_extract_identity_claims = verify_and_extract_identity_claims;
    mint_session_token_with_groups = mint_session_token_with_groups;
    verify_session_token = verify_session_token;
    update_identity = update_identity;
    verify_client_credentials = verify_client_credentials;
  }
