-- ===== src/Relations/Tests.antt =====
-- Requests about relations on the server in memory, and the theorems at them.
use jimm.Prelude.{ap, ◌≡◌, refl, String, some, List, [], ◌∷◌}
use jimm.Errors.{ok}
use jimm.Exec.{pure}
use jimm.Ofga.Names.{Tag, convert_tag, parse_relation, administrator_relation}
use jimm.Ofga.Tuples.{Tuple}
use jimm.Ofga.Memory.{memory, memory_writes, memory_checks}
use jimm.User.{User, new_user, user_tuple, contextual_tuples}
use jimm.Relations.{
  RelationshipTuple, Directory, parse_tuples, parse_tuple, authorize_all,
  authorize_relation_target_admin, check_target_admin, add_relations, remove_relations,
}
use jimm.Relations.Authorized.{Guarded, relations_authorized}
use jimm.Relations.Written.{Added, TakenAway, add_relations_exact, remove_relations_exact}

abbrev bob : Tag
bob = record { kind = "user"; id = "bob@canonical.com"; relation = "" }

abbrev model : Tag
model = record { kind = "model"; id = "m1"; relation = "" }

-- two names that resolve
abbrev directory : Directory memory
directory = record {
  parse_and_validate_tag = λ name. pure (record { kind = name; id = "m1"; relation = "" });
  new_user_from_tag = λ name. pure (new_user name);
}

abbrev alice : User
alice = new_user "alice@canonical.com"

abbrev store : List Tuple
store = user_tuple alice (record { kind = "model"; id = "m1" }) administrator_relation ∷ []

abbrev requests : List RelationshipTuple
requests =
    record { object = "user"; relation = "writer"; target_object = "model" }
    ∷ record { object = "group"; relation = "reader"; target_object = "model" }
    ∷ []

abbrev entry : String → String → Tuple
entry kind relation = record {
  object = some (record { kind = kind; id = "m1"; relation = "" });
  relation = relation;
  target = some model;
}

abbrev wanted : List Tuple
wanted = entry "user" "writer" ∷ entry "group" "reader" ∷ []

requests_parsed : parse_tuples memory directory requests store ≡ (ok wanted, store)
unfolding parse_tuples parse_tuple parse_relation
requests_parsed = refl

requests_allowed : authorize_all memory alice wanted store ≡ (ok tt, store)
unfolding authorize_all authorize_relation_target_admin check_target_admin contextual_tuples
    convert_tag
requests_allowed = refl

add_relations_exact_example :
    Added memory wanted store (add_relations memory directory alice requests store)
add_relations_exact_example =
    add_relations_exact memory memory_writes directory alice requests wanted store store store
      requests_parsed requests_allowed

remove_relations_exact_example :
    TakenAway memory wanted store (remove_relations memory directory alice requests store)
remove_relations_exact_example =
    remove_relations_exact memory memory_writes directory alice requests wanted store store store
      requests_parsed requests_allowed

relations_authorized_example :
    Guarded memory directory alice requests store
      (add_relations memory directory alice requests store)
    × Guarded memory directory alice requests store
        (remove_relations memory directory alice requests store)
relations_authorized_example =
    relations_authorized memory memory_checks directory alice requests store
      (ap (λ q. q.1) requests_parsed) refl
