-- ===== src/Ofga/Tests.antt =====
-- Runs of the OpenFGA client on the server in memory, and the theorems at concrete stores.
use jimm.Prelude.{
  ◌≡◌, refl, true, false, Bool, All, find, String, none, some, List, [], ◌∷◌, arith, elem, select,
  string_eq,
}
use jimm.Errors.{ok}
use jimm.Ofga.Names.{
  Tag, JujuTag, convert_tag_with_relation, blank_kind_tag, member_relation, assignee_relation,
}
use jimm.Ofga.Tuples.{Tuple, tuple_eq, matches, is_public, public_access_adaptor}
use jimm.Ofga.Client.{
  batch_check_relations, remove_tuples, remove_model, remove_role, remove_group, remove_grants,
  resource_types,
}
use jimm.Ofga.Removal.{Removed, remove_tuples_exact, remove_tuples_keeps_public}
use jimm.Ofga.Removal.Pages.{NoPublic, NoPublic-of_All}
use jimm.Ofga.Cleanup.{
  RemovedAll, entity_tuples, model_tuples, cloud_grant, remove_group_exact, remove_role_exact,
  remove_model_exact, remove_group_keeps_cloud,
}
use jimm.Ofga.Server.{CheckItem, ids, Answers}
use jimm.Ofga.Batch.{batch_check_relations_exact}
use jimm.Ofga.Memory.Batches.{memory_batches}
use jimm.Ofga.Memory.{memory, memory_reads, memory_writes}

abbrev tag : String → String → Tag
tag kind id = record { kind = kind; id = id; relation = "" }

abbrev link : Tag → String → Tag → Tuple
link object relation target = record {
  object = some object;
  relation = relation;
  target = some target;
}

abbrev members : Tag
members = record { kind = "group"; id = "g1"; relation = "member" }

abbrev assignees : Tag
assignees = record { kind = "role"; id = "r1"; relation = "assignee" }

abbrev alice : Tag
alice = tag "user" "alice@canonical.com"

-- Four relations of a group, one of a role, two of a model.
abbrev store : List Tuple
store =
    link alice "member" (tag "group" "g1")
    ∷ link members "writer" (tag "model" "m1")
    ∷ link members "administrator" (tag "controller" "c1")
    ∷ link assignees "reader" (tag "model" "m2")
    ∷ cloud_grant "g1" "can_addmodel" "aws"
    ∷ link (tag "controller" "c1") "controller" (tag "model" "m1")
    ∷ link (tag "model" "m1") "model" (tag "applicationoffer" "o1")
    ∷ []

store_private : NoPublic store
unfolding is_public
store_private = NoPublic-of_All store (ground arith)

abbrev group : JujuTag
group = record { kind = "group"; id = "g1" }

remove_group_runs : remove_group memory 8 group store ≡ (
  ok tt,
  link assignees "reader" (tag "model" "m2")
      ∷ cloud_grant "g1" "can_addmodel" "aws"
      ∷ link (tag "controller" "c1") "controller" (tag "model" "m1")
      ∷ link (tag "model" "m1") "model" (tag "applicationoffer" "o1")
      ∷ [],
)
unfolding remove_group remove_tuples remove_grants blank_kind_tag matches select
    public_access_adaptor convert_tag_with_relation
remove_group_runs = refl

remove_group_exact_example :
    RemovedAll memory
      (entity_tuples group member_relation resource_types)
      store
      (remove_group memory 8 group store)
remove_group_exact_example =
    remove_group_exact memory memory_reads memory_writes 8 store store_private (omega arith) group

remove_role_exact_example :
    RemovedAll memory
      (entity_tuples (record { kind = "role"; id = "r1" }) assignee_relation resource_types)
      store
      (remove_role memory 8 (record { kind = "role"; id = "r1" }) store)
remove_role_exact_example =
    remove_role_exact memory memory_reads memory_writes 8 store store_private (omega arith)
      (record { kind = "role"; id = "r1" })

remove_model_exact_example :
    RemovedAll memory
      (model_tuples (record { kind = "model"; id = "m1" }))
      store
      (remove_model memory 8 (record { kind = "model"; id = "m1" }) store)
remove_model_exact_example =
    remove_model_exact memory memory_reads memory_writes 8 store store_private (omega arith)
      (record { kind = "model"; id = "m1" })

remove_group_keeps_cloud_example :
    elem (cloud_grant "g1" "can_addmodel" "aws") (remove_group memory 8 group store).1 ≡ true
remove_group_keeps_cloud_example =
    remove_group_keeps_cloud memory memory_reads memory_writes 8 store store_private (omega arith)
      "g1" "can_addmodel" "aws" refl

abbrev of_group : Tuple
of_group = record { object = some members; relation = ""; target = some (tag "model" "") }

remove_tuples_exact_example : Removed memory of_group store (remove_tuples memory 8 of_group store)
unfolding is_public matches select
remove_tuples_exact_example =
    remove_tuples_exact memory memory_reads memory_writes of_group 8 store
      (NoPublic-of_All (select (matches of_group) store) (ground arith)) (omega arith)

abbrev public_reader : Tuple
public_reader = link (tag "user" "*") "reader" (tag "model" "m1")

abbrev on_model : Tuple
on_model = record { object = none; relation = ""; target = some (tag "model" "m1") }

-- The removal reports success, and the public grant on the model is still there.
public_survives : remove_tuples memory 8 on_model (public_reader ∷ []) ≡ (ok tt, public_reader ∷ [])
unfolding remove_tuples matches select public_access_adaptor
public_survives = refl

remove_tuples_keeps_public_example :
    elem public_reader (remove_tuples memory 8 on_model (public_reader ∷ store)).1 ≡ true
unfolding is_public
remove_tuples_keeps_public_example =
    remove_tuples_keeps_public memory memory_reads memory_writes on_model 8 (public_reader ∷ store)
      public_reader refl refl

abbrev questions : List CheckItem
questions =
    record { tuple = link alice "reader" (tag "model" "m1"); correlation_id = "0"; contextual = [] }
    ∷ record {
      tuple = link members "reader" (tag "model" "m1");
      correlation_id = "1";
      contextual = [];
    }
    ∷ []

abbrev answered : List (String × Bool)
answered = ("0", true) ∷ ("1", false) ∷ []

abbrev alice_reads : List Tuple
alice_reads = link alice "reader" (tag "model" "m1") ∷ []

batch_check_relations_exact_example :
    All (Answers memory alice_reads answered) questions
    × ((id : String) → elem id (ids questions) ≡ false → find id answered ≡ none)
    × (alice_reads ≡ alice_reads)
unfolding batch_check_relations
batch_check_relations_exact_example =
    batch_check_relations_exact memory memory_batches questions alice_reads alice_reads answered
      refl (refl, (refl, tt))
