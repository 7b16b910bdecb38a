-- ===== src/Ofga/Client.antt =====
-- internal/openfga/openfga.go: the methods of OFGAClient.
use jimm.Prelude.{
  ℕ, zero, suc, String, Bool, true, false, Option, none, some, List, [], ◌∷◌, ◌++◌, map, ◌==◌,
  string_eq, if◌then◌else◌, length,
}
use jimm.Errors.{plain, message, Result, ok, err}
use jimm.Exec.{Exec, pure, lift, give_up, attempt, ◌>>=◌, ◌>>◌}
use jimm.Exec.Batches.{batches}
use jimm.Ofga.Names.{
  Tag, JujuTag, convert_tag, convert_tag_with_relation, blank_kind_tag, user_kind, model_kind,
  controller_kind, offer_kind, group_kind, idp_group_kind, role_kind, controller_relation,
  model_relation, member_relation, assignee_relation,
}
use jimm.Ofga.Tuples.{Tuple, public_access_adaptor}
use jimm.Ofga.Server.{contains, exists_text, absent_text, Server, CheckItem}

abbrev pub resource_types : List String
resource_types =
    user_kind ∷ model_kind ∷ controller_kind ∷ offer_kind ∷ group_kind ∷ idp_group_kind ∷ role_kind
    ∷ []

abbrev pub batch_check_size : ℕ
batch_check_size = 50

-- every relation to the entity
abbrev pub on_target : JujuTag → Tuple
on_target t = record { object = none; relation = ""; target = some (convert_tag t) }

module _ (V : Server) where
  -- AddRelation and RemoveRelation, without their metrics
  unfoldable pub add_relation : List Tuple → Exec V.State (Unit {0})
  add_relation ts = V.add_relation_idempotent ts

  unfoldable pub remove_relation : List Tuple → Exec V.State (Unit {0})
  remove_relation ts = V.remove_relation_idempotent ts

  -- An error whose text contains `known` counts as success.
  unfoldable pub ignoring : String → Result (Unit {0}) → Result (Unit {0})
  ignoring known (err e) = if contains (message e) known then ok tt else err e
  ignoring known r = r

  abbrev pub relation_of : Option JujuTag → Option JujuTag → String → Result Tuple
  relation_of (some object) (some target) relation = ok (record {
    object = some (convert_tag object);
    relation = relation;
    target = some (convert_tag target);
  })
  relation_of _ _ relation = err (plain "missing object or target for relation")

  unfoldable pub set_resource_access :
      Option JujuTag → Option JujuTag → String → Exec V.State (Unit {0})
  unfolding add_relation ignoring message
  set_resource_access object target relation = do
    t ← lift (relation_of object target relation)
    r ← attempt (add_relation (t ∷ []))
    lift (ignoring exists_text r)

  unfoldable pub unset_resource_access :
      Option JujuTag → Option JujuTag → String → Exec V.State (Unit {0})
  unfolding remove_relation ignoring message
  unset_resource_access object target relation = do
    t ← lift (relation_of object target relation)
    r ← attempt (remove_relation (t ∷ []))
    lift (ignoring absent_text r)

  -- getRelatedObjects, ReadRelatedObjects
  unfoldable pub read_related_objects : Tuple → ℕ → String → Exec V.State (List Tuple × String)
  read_related_objects p page_size token = do
    (found, ct) ← V.find_matching_tuples p page_size token
    pure (map public_access_adaptor found, ct)

  -- listObjects, ListObjects
  unfoldable pub list_objects : Tag → String → String → List Tuple → Exec V.State (List Tag)
  list_objects user relation kind contextual =
      V.find_accessible_objects
        (record {
          object = some user;
          relation = relation;
          target = some (record { kind = kind; id = ""; relation = "" });
        })
        contextual

  unfoldable pub check_relation : Tuple → Bool → List Tuple → Exec V.State Bool
  check_relation t trace contextual =
      if trace then V.check_relation_with_tracing t contextual else V.check_relation t contextual

  -- maps.Copy of each batch's answers: a later answer to the same id comes first.
  unfoldable pub check_batches :
      List (List CheckItem) → List (String × Bool) → Exec V.State (List (String × Bool))
  check_batches [] results = pure results
  check_batches (b ∷ bs) results = do
    answers ← V.batch_check_relations b
    check_batches bs (answers ++ results)

  unfoldable pub batch_check_relations : List CheckItem → Exec V.State (List (String × Bool))
  unfolding check_batches batches
  batch_check_relations items = check_batches (batches (length items) batch_check_size items) []

  unfoldable pub remove_page : List Tuple → Exec V.State (Unit {0})
  unfolding remove_relation
  remove_page [] = pure tt
  remove_page (t ∷ ts) = remove_relation (t ∷ ts)

  -- removeTuples: the loop's rounds are bounded by the fuel.
  unfoldable pub remove_tuples : ℕ → Tuple → Exec V.State (Unit {0})
  unfolding read_related_objects remove_page
  remove_tuples zero p = give_up
  remove_tuples (suc fuel) p = do
    (found, ct) ← read_related_objects p 50 ""
    remove_page found
    elim (ct == "") [ true ↦ pure tt | false ↦ remove_tuples fuel p ]

  unfoldable pub add_controller_model : JujuTag → JujuTag → Exec V.State (Unit {0})
  unfolding set_resource_access
  add_controller_model controller model =
      set_resource_access (some controller) (some model) controller_relation

  unfoldable pub remove_controller_model : JujuTag → JujuTag → Exec V.State (Unit {0})
  unfolding unset_resource_access
  remove_controller_model controller model =
      unset_resource_access (some controller) (some model) controller_relation

  unfoldable pub remove_model : ℕ → JujuTag → Exec V.State (Unit {0})
  remove_model fuel model = do
    remove_tuples fuel (on_target model)
    offer ← lift (blank_kind_tag offer_kind)
    remove_tuples fuel
        (record { object = some (convert_tag model); relation = ""; target = some offer })

  unfoldable pub add_model_application_offer : JujuTag → JujuTag → Exec V.State (Unit {0})
  unfolding set_resource_access
  add_model_application_offer model offer =
      set_resource_access (some model) (some offer) model_relation

  unfoldable pub remove_application_offer : ℕ → JujuTag → Exec V.State (Unit {0})
  remove_application_offer fuel offer = remove_tuples fuel (on_target offer)

  -- the loop over resourceTypes in RemoveRole and RemoveGroup
  unfoldable pub remove_grants : ℕ → Tag → List String → Exec V.State (Unit {0})
  remove_grants fuel object [] = pure tt
  remove_grants fuel object (kind ∷ kinds) = do
    kt ← lift (blank_kind_tag kind)
    remove_tuples fuel (record { object = some object; relation = ""; target = some kt })
    remove_grants fuel object kinds

  unfoldable pub remove_role : ℕ → JujuTag → Exec V.State (Unit {0})
  unfolding remove_grants
  remove_role fuel role = do
    remove_tuples fuel
        (record { object = none; relation = assignee_relation; target = some (convert_tag role) })
    remove_grants fuel (convert_tag_with_relation role assignee_relation) resource_types

  unfoldable pub remove_group : ℕ → JujuTag → Exec V.State (Unit {0})
  unfolding remove_grants
  remove_group fuel group = do
    remove_tuples fuel
        (record { object = none; relation = member_relation; target = some (convert_tag group) })
    remove_grants fuel (convert_tag_with_relation group member_relation) resource_types

  unfoldable pub remove_cloud : ℕ → JujuTag → Exec V.State (Unit {0})
  remove_cloud fuel cloud = remove_tuples fuel (on_target cloud)

  unfoldable pub add_cloud_controller : JujuTag → JujuTag → Exec V.State (Unit {0})
  unfolding set_resource_access
  add_cloud_controller cloud controller =
      set_resource_access (some controller) (some cloud) controller_relation

  unfoldable pub add_controller : JujuTag → JujuTag → Exec V.State (Unit {0})
  unfolding set_resource_access
  add_controller jimm controller =
      set_resource_access (some jimm) (some controller) controller_relation
