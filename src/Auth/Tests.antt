-- ===== src/Auth/Tests.antt =====
-- Sessions and tokens of the database of one identity.
use jimm.Prelude.{◌≡◌, ◌≢◌, ◌≤◌, ◌<◌, refl, [], ◌∷◌, map, All, inl, find, some}
use jimm.Errors.{Error, error_code, ok, err}
use jimm.User.{User, set_idp_groups, membership, contextual_tuples}
use jimm.User.Groups.{Valid}
use jimm.Auth.{text, SessionContext, session_identity_from_context, code_session_token_invalid}
use jimm.Auth.Groups.{claimed_groups, session_groups_from_value}
use jimm.Auth.Service.{
  mint_session_token_with_groups, verify_session_token, verify_client_credentials, hiding,
}
use jimm.Auth.Sessions.{create_browser_session_with_groups, logout, authenticate_browser_session}
use jimm.Auth.Tokens.{Verified, session_token_roundtrip}
use jimm.Auth.Limit.{groups_within_limit}
use jimm.Auth.Browser.{Usable, browser_session_roundtrip}
use jimm.Auth.Logout.{logout_ends_sessions}
use jimm.Auth.World.{site, database, libraries, signing, service, start, sessions, rows, refreshing}

session_token_roundtrip_example :
    (50 < 60
      → Verified "alice@canonical.com"
          ("admins" ∷ [])
          (verify_session_token site database libraries service "bticket" start).0)
    × (60 ≤ 50
        → (e : Error) × ((verify_session_token site database libraries service "bticket" start).0
            ≡ err e)
          × (error_code e ≡ code_session_token_invalid))
unfolding mint_session_token_with_groups
session_token_roundtrip_example =
    session_token_roundtrip site database libraries signing service "alice@canonical.com"
      ("admins" ∷ []) start start start start start 50 50 "bticket" refl refl refl refl

groups_within_limit_example :
    (2 ≤ 20)
    × ((u : User)
        → All Valid ("admins" ∷ "users" ∷ [])
        → let member = set_idp_groups u ("admins" ∷ "users" ∷ []) in
          contextual_tuples member ≡ ok (map (membership member) ("admins" ∷ "users" ∷ [])))
unfolding verify_client_credentials claimed_groups find
groups_within_limit_example =
    groups_within_limit site database libraries service ("admins" ∷ "users" ∷ []) start start
      (inl ("id", "secret", refl))

abbrev signed_in : site.State
signed_in =
    (create_browser_session_with_groups site database libraries service "alice@canonical.com"
      ("admins" ∷ []) start).1

browser_session_roundtrip_example :
    (Usable site database libraries sessions service "alice@canonical.com" signed_in
      → (ctx : SessionContext) × ((authenticate_browser_session site database libraries service
            signed_in).0
          ≡ ok ctx))
    × ((ctx : SessionContext) (t1 : site.State)
        → authenticate_browser_session site database libraries service signed_in ≡ (ok ctx, t1)
        → (session_identity_from_context ctx ≡ "alice@canonical.com")
          × (ctx.session_groups ≡ "admins" ∷ [])
          × (t1.1.entries ≡ signed_in.1.entries))
unfolding create_browser_session_with_groups
browser_session_roundtrip_example =
    browser_session_roundtrip site database libraries sessions service "alice@canonical.com"
      ("admins" ∷ []) start signed_in signed_in refl refl

-- A session that came back is usable, and its context is the one that was expected.
comes_back :
    (authenticate_browser_session site database libraries service signed_in).0
    ≡ ok (record {
      session_identity = some (text "alice@canonical.com");
      session_groups = "admins" ∷ [];
    })
unfolding create_browser_session_with_groups authenticate_browser_session hiding find
    session_groups_from_value
comes_back = refl

abbrev logged_out : site.State
logged_out = (logout site database libraries service signed_in).1

abbrev carried : SessionContext
carried = record { session_identity = some (text "alice@canonical.com"); session_groups = [] }

logout_ends_sessions_example :
    authenticate_browser_session site database libraries service logged_out
    ≢ (ok carried, logged_out)
unfolding create_browser_session_with_groups logout hiding find
logout_ends_sessions_example =
    logout_ends_sessions site database libraries rows refreshing service "alice@canonical.com"
      signed_in logged_out signed_in logged_out logged_out _ _ refl refl refl (λ name. refl) refl
      refl carried logged_out
