-- ===== src/Auth.antt =====
-- internal/auth/auth.go: the values that authentication works with, what it relies on, and what it
-- offers to the login manager.
pub mod Groups
pub mod Service
pub mod Sessions
pub mod Tokens
pub mod Limit
pub mod Browser
pub mod Logout
pub mod World
mod Tests
use jimm.Prelude.{
  ◌≡◌, ℕ, String, Bool, Option, none, some, List, [], ◌∷◌, ℤ, put, ◌==◌, string_eq, if◌then◌else◌,
}
use jimm.Errors.{Value, string_value, other_value, Error, plain, Result, ok, err, spent}
use jimm.Exec.{Exec}
use jimm.Ofga.Server.{Server}

-- A value behind an `any`, as far as the program tells its type.
pub data ClaimValue : Type 0 where
  text : String → ClaimValue
  -- []string
  texts : List String → ClaimValue
  -- []any
  values : List Value → ClaimValue
  other_claim : ClaimValue

-- jwt.Token
pub record Jwt : Type 0 where
  pub subject : String
  pub expiration : ℕ
  pub claims : List (String × ClaimValue)

-- oauth2.Token; `id_token` is its extra field of that name where that is a text.
pub record Token : Type 0 where
  pub access_token : String
  pub refresh_token : String
  pub expiry : ℕ
  pub token_type : String
  pub id_token : Option String

-- A verified oidc.IDToken; `claims` is what decoding its claims gives.
pub record IdToken : Type 0 where
  pub subject : String
  pub claims : Result (List (String × ClaimValue))

pub record IdentityClaims : Type 0 where
  pub subject : String
  pub email : String
  pub groups : List String

-- A row of dbmodel.Identity, as far as logging in reads and writes it.
pub record Identity : Type 0 where
  pub name : String
  pub display_name : String
  pub last_login : Option ℕ
  pub access_token : String
  pub refresh_token : String
  pub access_token_expiry : ℕ
  pub access_token_type : String

-- sessions.Session
pub record BrowserSession : Type 0 where
  pub is_new : Bool
  pub max_age : ℤ
  pub secure : Bool
  pub http_only : Bool
  pub same_site_none : Bool
  pub entries : List (String × ClaimValue)

-- What the handler's context carries.
pub record SessionContext : Type 0 where
  pub session_identity : Option ClaimValue
  pub session_groups : List String

abbrev pub session_identity_key : String
session_identity_key = "identity-id"

abbrev pub session_groups_key : String
session_groups_key = "identity-groups"

abbrev pub session_token_groups_claim_key : String
session_token_groups_claim_key = "groups"

abbrev pub code_session_token_invalid : String
code_session_token_invalid = "session token invalid"

abbrev pub code_fatal_login_error : String
code_fatal_login_error = "fatal login error"

abbrev pub code_forbidden : String
code_forbidden = "forbidden"

-- The database of identities, dbmodel.NewIdentity, and the clock.
pub record Identities (V : Server) : Type 0 where
  pub new_identity : String → Result Identity
  -- GetIdentity creates the row where there is none
  pub get_identity : Identity → Exec V.State Identity
  pub update_identity : Identity → Exec V.State (Unit {0})
  pub now : Exec V.State ℕ

-- golang.org/x/oauth2 and go-oidc with the configured provider, jwx, base64, net/mail and the
-- session store of a request.
pub record Libraries (V : Server) : Type 0 where
  pub device_access_token : String → Exec V.State Token
  pub client_token : String → String → Exec V.State Token
  pub refreshed : Token → Exec V.State Token
  -- Token.Valid, at a time
  pub valid : Token → ℕ → Bool
  pub verify_id_token : String → Exec V.State IdToken
  -- jwt.Sign and jwt.Parse with a key, the latter at a time; jwt.ParseInsecure
  pub sign : String → Jwt → Result String
  pub parse : String → ℕ → String → Result Jwt
  pub parse_insecure : String → Result Jwt
  -- errors.Is(err, jwt.ErrTokenExpired())
  pub is_expired : Error → Bool
  pub encode_base64 : String → String
  pub decode_base64 : String → Result String
  pub parse_address : String → Result (Unit {0})
  pub session_get : Exec V.State BrowserSession
  pub session_save : BrowserSession → Exec V.State (Unit {0})

-- OAuthAuthenticator, as internal/jimm/login uses it; a device's response is its code.
pub record OAuthAuthenticator (V : Server) : Type 0 where
  pub device_access_token : String → Exec V.State Token
  pub verify_and_extract_identity_claims : Token → Exec V.State IdentityClaims
  pub mint_session_token_with_groups : String → List String → Exec V.State String
  pub verify_session_token : String → Exec V.State Jwt
  pub update_identity : String → Token → Exec V.State (Unit {0})
  pub verify_client_credentials : String → String → Exec V.State (List String)

-- SessionIdentityFromContext
unfoldable pub session_identity_from_context : SessionContext → String
session_identity_from_context ctx = shown ctx.session_identity
  where
    shown : Option ClaimValue → String
    shown (some (text s)) = s
    shown other = ""

-- fmt.Errorf with %v: the underlying error cannot be unwrapped.
abbrev pub hidden {ℓ} : {A : Type ℓ} → String → Result A → Result A
hidden context (ok a) = ok a
hidden context (err e) = err (plain context)
hidden context spent = spent

pub hidden_ok :
    {A : Type 0} (context : String) (r : Result A) (a : A) → hidden context r ≡ ok a → r ≡ ok a
hidden_ok context (ok b) a e = e
hidden_ok context (err x) a e = absurd (cc e)
hidden_ok context spent a e = absurd (cc e)
