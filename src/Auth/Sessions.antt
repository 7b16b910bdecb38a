-- ===== src/Auth/Sessions.antt =====
-- internal/auth/auth.go: the sessions of browsers, which a cookie carries.
use jimm.Prelude.{
  ℕ, ℤ, pos, negsuc, String, Bool, true, false, Option, none, some, List, find, put, ◌==◌,
  string_eq, if◌then◌else◌,
}
use jimm.Errors.{plain, codef, Result, ok, err}
use jimm.Exec.{Exec, pure, raise, lift, ◌>>=◌, ◌>>◌}
use jimm.Ofga.Server.{Server}
use jimm.User.{wrapping}
use jimm.Auth.{
  ClaimValue, text, texts, values, other_claim, Token, Identity, Identities, Libraries,
  BrowserSession, SessionContext, session_identity_from_context, session_identity_key,
  session_groups_key, code_forbidden,
}
use jimm.Auth.Groups.{session_groups_from_value}
use jimm.Auth.Service.{AuthenticationService, hiding, update_identity}

-- WhoamiResponse
pub record Whoami : Type 0 where
  pub display_name : String
  pub email : String

abbrev pub session_cross_origin_safe : Bool → BrowserSession → BrowserSession
session_cross_origin_safe secure session = record session {
  secure = secure;
  http_only = true;
  same_site_none = true;
}

-- an interface value that has to be a text
abbrev pub cast : String → ClaimValue → Result String
cast context (text s) = ok s
cast context (texts ss) = err (plain context)
cast context (values vs) = err (plain context)
cast context other_claim = err (plain context)

abbrev pub entry : Result ClaimValue → Option ClaimValue → Result ClaimValue
entry missing none = missing
entry missing (some v) = ok v

-- The token that the row keeps.
abbrev pub stored_token : Identity → Token
stored_token u = record {
  access_token = u.access_token;
  refresh_token = u.refresh_token;
  expiry = u.access_token_expiry;
  token_type = u.access_token_type;
  id_token = none;
}

-- The token that Logout leaves behind.
abbrev pub cleared : ℕ → Token
cleared now = record {
  access_token = "";
  refresh_token = "";
  expiry = now;
  token_type = "";
  id_token = none;
}

module _ (V : Server) (D : Identities V) (L : Libraries V) (C : AuthenticationService) where
  unfoldable pub modify_session : BrowserSession → ℤ → Exec V.State (Unit {0})
  modify_session session max_age = L.session_save (record session { max_age = max_age })

  unfoldable pub create_browser_session_with_groups : String → List String → Exec V.State (Unit {0})
  create_browser_session_with_groups email groups = do
    session ← L.session_get
    L.session_save (record {
      is_new = true;
      max_age = pos C.session_cookie_max_age;
      secure = C.secure_cookies;
      http_only = true;
      same_site_none = true;
      entries =
          put session_groups_key (texts groups)
            (put session_identity_key (text email) session.entries);
    })

  unfoldable pub refresh_identities_token : String → Token → Exec V.State (Unit {0})
  unfolding update_identity wrapping
  refresh_identities_token email t = do
    fresh ← wrapping V "failed to refresh token" (L.refreshed t)
    wrapping V "failed to update identity" (update_identity V D L C email fresh)

  abbrev pub refresh_unless : Bool → String → Token → Exec V.State (Unit {0})
  refresh_unless true email t = pure tt
  refresh_unless false email t = refresh_identities_token email t

  unfoldable pub validate_and_update_access_token : ClaimValue → Exec V.State (Unit {0})
  unfolding refresh_identities_token
  validate_and_update_access_token email = do
    email_str ← lift (cast "failed to cast email" email)
    identity ← lift (D.new_identity email_str)
    u ← D.get_identity identity
    now ← D.now
    refresh_unless (L.valid (stored_token u) now) email_str (stored_token u)

  unfoldable pub authenticate_browser_session : Exec V.State SessionContext
  unfolding validate_and_update_access_token modify_session codef
  authenticate_browser_session = do
    session ← hiding "failed to retrieve session" L.session_get
    identity_id ← lift (
        entry (err (codef code_forbidden "session is missing identity key"))
          (find session_identity_key session.entries))
    hiding "failed to validate and update status token"
        (validate_and_update_access_token identity_id)
    groups ← lift (session_groups_from_value (find session_groups_key session.entries))
    modify_session (session_cross_origin_safe C.secure_cookies session)
        (pos C.session_cookie_max_age)
    pure (record { session_identity = some identity_id; session_groups = groups })

  unfoldable pub logout : Exec V.State (Unit {0})
  unfolding modify_session update_identity
  logout = do
    session ← hiding "failed to retrieve session" L.session_get
    identity_id ← lift (
        entry (err (plain "session is missing identity key"))
          (find session_identity_key session.entries))
    identity_str ← lift (cast "session identity key could not be parsed" identity_id)
    hiding "failed to delete session" (modify_session session (negsuc 0))
    now ← D.now
    hiding "failed to update identity" (update_identity V D L C identity_str (cleared now))

  unfoldable pub whoami : SessionContext → Exec V.State Whoami
  unfolding session_identity_from_context
  whoami ctx =
      let id = session_identity_from_context ctx in
      if id == "" then raise (plain "no identity in context") else (do
        identity ← lift (D.new_identity id)
        u ← D.get_identity identity
        pure (record { display_name = u.display_name; email = u.name }))
