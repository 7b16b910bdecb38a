-- ===== src/Login/Tests.antt =====
-- Logins at the authentication service of one identity.
use jimm.Prelude.{◌≡◌, refl, true, [], ◌∷◌, string_eq, find}
use jimm.Ofga.Names.{administrator_relation, convert_tag}
use jimm.User.{User, new_user, user_tuple, user_check, contextual_tuples, set_idp_groups}
use jimm.Auth.Service.{verify_session_token}
use jimm.Auth.World.{site, alice, database, libraries, service}
use jimm.Login.Vouched.{session_token, log_in, LoggedIn, login_vouched}
use jimm.Login.Service.{service-LoginLaws}
use jimm.Login.World.{names, jimm_tag, checks, laws, site_manager}

-- The store has alice administer JIMM.
abbrev store : site.State
store = (
  user_tuple (new_user "alice@canonical.com") jimm_tag administrator_relation ∷ [],
  record { identity = alice; entries = [] },
)

abbrev admin : User
admin = record (new_user "alice@canonical.com") { jimm_admin = true; idp_group_ids = "admins" ∷ [] }

login_vouched_example :
    LoggedIn site site_manager store.0 (session_token "bticket") admin × (store.0 ≡ store.0)
unfolding log_in verify_session_token user_check contextual_tuples convert_tag set_idp_groups find
login_vouched_example =
    login_vouched site checks site_manager
      (service-LoginLaws site database libraries laws service jimm_tag names)
      (session_token "bticket") admin store
      (log_in site site_manager (session_token "bticket") store).1 refl
