-- ===== src/Managers/Tests.antt =====
-- A database with one group, beside a server in memory.
use jimm.Prelude.{◌≡◌, refl, true, List, [], ◌∷◌, arith, find}
use jimm.Errors.{ok, err, codef, code_unauthorized}
use jimm.Exec.{pure}
use jimm.Ofga.Names.{member_relation, convert_tag}
use jimm.Ofga.Tuples.{Tuple, is_public}
use jimm.Ofga.Removal.Pages.{NoPublic, NoPublic-of_All}
use jimm.Ofga.Memory.{memory, memory_reads, memory_writes}
use jimm.User.{User, new_user, user_tuple, user_check, contextual_tuples, set_idp_groups}
use jimm.Auth.Service.{verify_session_token}
use jimm.Auth.World.{site, database, libraries, service, start}
use jimm.Login.Service.{service-LoginLaws}
use jimm.Login.Vouched.{session_token, log_in}
use jimm.Login.World.{names, jimm_tag, checks, laws, site_manager}
use jimm.Managers.Groups.{GroupEntry, GroupDatabase, GroupManager, remove_group}
use jimm.Managers.Roles.{RoleManager}
use jimm.Managers.Identities.{IdentityManager}
use jimm.Managers.Refused.{group_removed, handle, logged_in_refused}
use jimm.Managers.Removal.{GroupLaws, Outcome, remove_group_outcome}

abbrev admins : GroupEntry
admins = record { uuid = "g1"; name = "admins" }

abbrev group_database : GroupDatabase memory
group_database = record {
  add_group = λ name. pure admins;
  count_groups = pure 1;
  get_group = λ g. pure admins;
  update_group_name = λ uuid name. pure tt;
  remove_group = λ g. pure tt;
  list_groups = λ limit offset match. pure (admins ∷ []);
}

abbrev groups : GroupManager memory
groups = record { store = group_database; transaction = λ f. f group_database }

group_laws : GroupLaws memory groups
group_laws = record {
  get_keeps = λ g s. refl;
  remove_keeps = λ g s. refl;
  get_ends = λ g s e. cc e;
  remove_ends = λ g s e. cc e;
  transaction_keeps = λ f s body. body group_database s;
  transaction_ends = λ f s body. body group_database s;
  transaction_ran = λ f s s' g e. (group_database, s, s', e);
}

abbrev store : List Tuple
store =
    user_tuple (new_user "bob") (record { kind = "model"; id = "m1" }) "reader"
    ∷ user_tuple (new_user "bob") (record { kind = "group"; id = "g1" }) member_relation
    ∷ []

store_private : NoPublic store
unfolding is_public convert_tag
store_private = NoPublic-of_All store (ground arith)

abbrev administrator : User
administrator = record (new_user "alice") { jimm_admin = true }

remove_group_outcome_example :
    Outcome memory groups "admins" store (remove_group memory groups 5 administrator "admins" store)
remove_group_outcome_example =
    remove_group_outcome memory memory_reads memory_writes groups group_laws 5 administrator
      "admins" store refl store_private (omega arith)

abbrev site_groups : GroupManager site
site_groups = record { store = database_of_none; transaction = λ f. f database_of_none }
  where
    database_of_none : GroupDatabase site
    database_of_none = record {
      add_group = λ name. pure admins;
      count_groups = pure 1;
      get_group = λ g. pure admins;
      update_group_name = λ uuid name. pure tt;
      remove_group = λ g. pure tt;
      list_groups = λ limit offset match. pure (admins ∷ []);
    }

abbrev site_roles : RoleManager site
site_roles = record {
  add = λ name. pure (record { uuid = "r1"; name = name });
  count = pure 0;
  get = pure;
  update_name = λ old_name new_name. pure tt;
  remove = λ r. pure tt;
  list = λ limit offset match. pure [];
}

abbrev site_identities : IdentityManager site
site_identities = record {
  new_identity = ok;
  fetch = pure;
  list = λ limit offset match. pure [];
  count = pure 1;
}

abbrev guest : User
guest = record (new_user "alice@canonical.com") { idp_group_ids = "admins" ∷ [] }

logged_in_refused_example :
    handle site site_groups site_roles site_identities 5 guest (group_removed "admins") start
    ≡ (err (codef code_unauthorized "unauthorized"), start)
unfolding log_in verify_session_token user_check contextual_tuples convert_tag set_idp_groups find
logged_in_refused_example =
    logged_in_refused site site_groups site_roles site_identities 5 checks site_manager
      (service-LoginLaws site database libraries laws service jimm_tag names)
      (session_token "bticket") guest start
      (log_in site site_manager (session_token "bticket") start).1 start (group_removed "admins")
      refl refl
