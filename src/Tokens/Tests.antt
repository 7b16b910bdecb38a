-- ===== src/Tokens/Tests.antt =====
-- Tokens of a service that signs by writing the controller's name.
use jimm.Prelude.{◌≡◌, refl, ◌≤◌, none, some, List, [], ◌∷◌, itoa}
use jimm.Errors.{string_value, other_value, ok}
use jimm.Exec.{pure}
use jimm.Ofga.Names.{JujuTag, convert_tag, writer_relation}
use jimm.Ofga.Tuples.{Tuple}
use jimm.Ofga.Memory.{memory, memory_checks}
use jimm.User.{
  User, new_user, user_tuple, contextual_tuples, user_check, get_model_access,
  get_controller_access, get_cloud_access,
}
use jimm.Access.{Manager, get_user_model_access, get_user_controller_access, get_user_cloud_access}
use jimm.Access.Permissions.{check_permission}
use jimm.Tokens.{
  Services, Session, new_login_token_generator, make_login_token, make_token, get, modify,
  on_server, wrapping, panic,
}
use jimm.Tokens.Limit.{Call, log_in, assert, calls, make_token_limited}
use jimm.Tokens.Claims.{ServiceLaws, Attested, login_token_claims}

abbrev manager : Manager memory
manager = record {
  jimm_tag = record { kind = "controller"; id = "jimm" };
  get_identity = λ name. pure tt;
  get_application_offer = λ url. pure (record { kind = "applicationoffer"; id = url });
  new_identity = λ name. ok name;
  fetch_groups = λ name. pure [];
}

abbrev cloud : JujuTag
cloud = record { kind = "cloud"; id = "aws" }

abbrev model : JujuTag
model = record { kind = "model"; id = "m1" }

abbrev controller : JujuTag
controller = record { kind = "controller"; id = "c1" }

abbrev services : Services memory
services = record {
  get_controller = λ ct. pure (cloud ∷ cloud ∷ []);
  new_jwt = λ p. pure p.controller;
  parse_tag = λ key. ok (record { kind = "model"; id = key });
  tag_text = λ t. t.id;
  version_less = λ a b. none;
}

services_laws : ServiceLaws memory services
services_laws = record { controller_keeps = λ ct s. refl; jwt_keeps = λ p s. refl }

abbrev alice : User
alice = new_user "alice@canonical.com"

abbrev store : List Tuple
store = user_tuple alice model writer_relation ∷ []

abbrev fresh : Session memory
fresh = record {
  generator = record new_login_token_generator { mt = model; ct = controller };
  server = store;
}

login_token_claims_example :
    Attested memory memory_checks manager services services_laws alice store "c1"
unfolding make_login_token get modify on_server wrapping get_user_model_access get_model_access
    user_check contextual_tuples convert_tag get_user_controller_access get_controller_access
    get_user_cloud_access get_cloud_access new_login_token_generator
login_token_claims_example =
    login_token_claims memory memory_checks manager services services_laws alice fresh
      (make_login_token memory manager services (some alice) fresh).1 "c1" refl

abbrev greedy : List Call
greedy = log_in (some alice) ∷ assert none ∷ assert none ∷ []

make_token_limited_example :
    (calls memory manager services greedy
      (record { generator = new_login_token_generator; server = store })).0
    ≤ 10
make_token_limited_example = make_token_limited memory manager services greedy store

-- The map is nil after a permission that is no text; the next one that is granted panics.
abbrev logged_in : Session memory
logged_in = record fresh {
  generator = record fresh.generator { user = some alice; access_map_cache = some [] };
}

nil_map :
    (make_token memory manager services
      (some (("m1", other_value) ∷ []))
      logged_in).1.generator.access_map_cache
    ≡ none
unfolding make_token get modify on_server check_permission new_login_token_generator
nil_map = refl

nil_map_panic :
    (make_token memory manager services
      (some (("m1", string_value "write") ∷ []))
      (record logged_in { generator = record logged_in.generator { access_map_cache = none } })).0
    ≡ ok panic
unfolding make_token get modify on_server check_permission itoa convert_tag
    new_login_token_generator
nil_map_panic = refl
