-- ===== src/User.antt =====
-- internal/openfga/user.go: the checks that a user's permissions go through, and the direct relations
-- that are set and unset for a user.
pub mod Levels
pub mod Unset
pub mod Groups
pub mod Listed
pub mod Set
mod Tests
use jimm.Prelude.{
  ℕ, zero, suc, ltb, length, String, Bool, true, false, not, ◌≡◌, Option, none, some, List, [], ◌∷◌,
  ◌++◌, map, ◌==◌, string_eq, elem, select, if◌then◌else◌,
}
use jimm.Errors.{Error, plain, wrapf, codef, code_unauthorized, Result, ok, err, spent}
use jimm.Exec.{Exec, pure, raise, lift, give_up, continue, ◌>>=◌, ◌>>◌}
use jimm.IdPGroup.{is_valid_idp_group_id}
use jimm.Ofga.Names.{
  Tag, JujuTag, convert_tag, user_kind, model_kind, offer_kind, idp_group_kind, member_relation,
  administrator_relation, writer_relation, reader_relation, consumer_relation,
  can_addmodel_relation, audit_log_viewer_relation, no_relation,
}
use jimm.Ofga.Tuples.{Tuple}
use jimm.Ofga.Server.{Server}
use jimm.Ofga.Client.{
  check_relation, remove_relation, set_resource_access, unset_resource_access, list_objects,
}

abbrev pub max_contextual_tuples : ℕ
max_contextual_tuples = 20

-- `connected` says that the client is not nil.
pub record User : Type 0 where
  pub name : String
  pub jimm_admin : Bool
  pub idp_group_ids : List String
  pub connected : Bool

-- NewUser: neither an administrator nor in a group, until something sets that.
abbrev pub new_user : String → User
new_user name = record { name = name; jimm_admin = false; idp_group_ids = []; connected = true }

-- SetIDPGroups
unfoldable pub set_idp_groups : User → List String → User
set_idp_groups u groups = record u { idp_group_ids = groups }

-- Identity.ResourceTag: the user's tag, for a name in the normal form of names.UserTag
abbrev pub resource_tag : User → JujuTag
resource_tag u = record { kind = user_kind; id = u.name }

abbrev pub membership : User → String → Tuple
membership u group = record {
  object = some (convert_tag (resource_tag u));
  relation = member_relation;
  target = some (convert_tag (record { kind = idp_group_kind; id = group }));
}

infixl 5 ◌then◌
abbrev ◌then◌ {ℓ κ} : {A : Type ℓ} {B : Type κ} → Result A → (A → Result B) → Result B
ok a then f = f a
err e then f = err e
spent then f = spent

unfoldable group_tuples : User → List String → Result (List Tuple)
group_tuples u [] = ok []
group_tuples u (group ∷ groups) =
    let rest = group_tuples u groups in
    if is_valid_idp_group_id group
    then rest
    then (λ ts. ok (membership u group ∷ ts))
    else err (codef code_unauthorized "invalid IDP group identifier in session")

unfoldable pub contextual_tuples : User → Result (List Tuple)
unfolding group_tuples codef
contextual_tuples u =
    if ltb max_contextual_tuples (length u.idp_group_ids)
    then err (codef code_unauthorized "too many IDP groups in session")
    else group_tuples u u.idp_group_ids

-- The relation of a user to a resource.
abbrev pub user_tuple : User → JujuTag → String → Tuple
user_tuple u resource relation = record {
  object = some (convert_tag (resource_tag u));
  relation = relation;
  target = some (convert_tag resource);
}

-- fmt.Errorf with what was tried, on the error of a call
abbrev pub wrapped {ℓ} : {A : Type ℓ} → String → Result A → Result A
wrapped context (ok a) = ok a
wrapped context (err e) = err (wrapf context e)
wrapped context spent = spent

-- The word of a permission in CheckPermission; any other word leaves the relation empty.
permission_relation : String → String
permission_relation permission =
    if permission == "superuser"
    then administrator_relation
    else if permission == "admin"
    then administrator_relation
    else if permission == "write"
    then writer_relation
    else if permission == "read"
    then reader_relation
    else if permission == "consume"
    then consumer_relation
    else if permission == "add-cloud"
    then can_addmodel_relation
    else no_relation

module _ (V : Server) where
  -- checkRelation and CheckRelation
  unfoldable pub user_check : User → JujuTag → String → Exec V.State Bool
  unfolding check_relation
  user_check u resource relation = do
    contextual ← lift (contextual_tuples u)
    check_relation V (user_tuple u resource relation) true contextual

  -- IsAdministrator, IsModelAdmin
  abbrev pub is_administrator : User → JujuTag → Exec V.State Bool
  is_administrator u resource = user_check u resource administrator_relation

  abbrev pub is_allowed_add_model_to_controller : User → JujuTag → Exec V.State Bool
  is_allowed_add_model_to_controller u controller = user_check u controller can_addmodel_relation

  abbrev pub is_allowed_add_model_to_cloud : User → JujuTag → Exec V.State Bool
  is_allowed_add_model_to_cloud u cloud = user_check u cloud can_addmodel_relation

  abbrev pub is_application_offer_consumer : User → JujuTag → Exec V.State Bool
  is_application_offer_consumer u offer = user_check u offer consumer_relation

  abbrev pub is_application_offer_reader : User → JujuTag → Exec V.State Bool
  is_application_offer_reader u offer = user_check u offer reader_relation

  abbrev pub is_model_reader : User → JujuTag → Exec V.State Bool
  is_model_reader u model = user_check u model reader_relation

  abbrev pub is_model_writer : User → JujuTag → Exec V.State Bool
  is_model_writer u model = user_check u model writer_relation

  abbrev pub has_model_relation : User → JujuTag → String → Exec V.State Bool
  has_model_relation u model relation = user_check u model relation

  -- One check of the Get…Access methods: on an error there is no relation, otherwise this level or
  -- what the rest finds.
  abbrev pub decide : String → Exec V.State String → Result Bool → Exec V.State String
  decide level rest (ok true) = pure level
  decide level rest (ok false) = rest
  decide level rest (err e) = pure no_relation
  decide level rest spent = give_up

  abbrev pub level_or : Exec V.State Bool → String → Exec V.State String → Exec V.State String
  level_or check level rest s = let (r, s') = check s in decide level rest r s'

  unfoldable pub get_cloud_access : User → JujuTag → Exec V.State String
  get_cloud_access u cloud =
      level_or (is_administrator u cloud) administrator_relation
        (level_or (is_allowed_add_model_to_cloud u cloud) can_addmodel_relation (pure no_relation))

  unfoldable pub get_audit_log_viewer_access : User → JujuTag → Exec V.State String
  get_audit_log_viewer_access u controller =
      level_or (user_check u controller audit_log_viewer_relation) audit_log_viewer_relation
        (pure no_relation)

  unfoldable pub get_controller_access : User → JujuTag → Exec V.State String
  get_controller_access u controller =
      level_or (is_administrator u controller) administrator_relation (pure no_relation)

  unfoldable pub get_model_access : User → JujuTag → Exec V.State String
  get_model_access u model = level_or (is_administrator u model) administrator_relation (
      level_or (is_model_writer u model) writer_relation
        (level_or (is_model_reader u model) reader_relation (pure no_relation)))

  unfoldable pub get_application_offer_access : User → JujuTag → Exec V.State String
  get_application_offer_access u offer =
      level_or (is_administrator u offer) administrator_relation (
        level_or (is_application_offer_consumer u offer) consumer_relation
          (level_or (is_application_offer_reader u offer) reader_relation (pure no_relation)))

  -- SetModelAccess, SetControllerAccess, SetCloudAccess and SetApplicationOfferAccess
  unfoldable pub set_access : User → JujuTag → String → Exec V.State (Unit {0})
  unfolding set_resource_access
  set_access u resource relation =
      set_resource_access V (some (resource_tag u)) (some resource) relation

  -- UnsetAuditLogViewerAccess and UnsetApplicationOfferAccess
  unfoldable pub unset_access : User → JujuTag → String → Exec V.State (Unit {0})
  unfolding unset_resource_access
  unset_access u resource relation =
      unset_resource_access V (some (resource_tag u)) (some resource) relation

  -- The loop of unsetMultipleResourceAccesses over the pages: the relations that there are.
  unfoldable pub read_relations : ℕ → Tuple → ℕ → String → List String → Exec V.State (List String)
  read_relations zero p page_size token existing = give_up
  read_relations (suc fuel) p page_size token existing = do
    (found, ct) ← V.find_matching_tuples p page_size token
    let seen = existing ++ map (λ (t : Tuple). t.relation) found
    elim (ct == "") [ true ↦ pure seen | false ↦ read_relations fuel p page_size ct seen ]

  unfoldable pub wrapping {ℓ} : {A : Type ℓ} → String → Exec V.State A → Exec V.State A
  wrapping context m s = let (r, s') = m s in (wrapped context r, s')

  -- unsetMultipleResourceAccesses, as UnsetModelAccess and UnsetCloudAccess call it
  unfoldable pub unset_accesses : ℕ → User → JujuTag → List String → Exec V.State (Unit {0})
  unfolding remove_relation wrapping read_relations
  unset_accesses fuel u resource relations = do
    existing ←
        wrapping "failed to retrieve existing relations"
          (read_relations fuel (user_tuple u resource "") 0 "" [])
    wrapping "failed to remove relations"
        (remove_relation V (map (user_tuple u resource) (select (λ r. elem r existing) relations)))

  abbrev tag_ids : List Tag → List String
  tag_ids = map (λ (t : Tag). t.id)

  -- ListModels and ListApplicationOffers
  list_resources : String → User → String → Exec V.State (List String)
  unfolding list_objects
  list_resources kind u relation = do
    contextual ← lift (contextual_tuples u)
    entities ← list_objects V (convert_tag (resource_tag u)) relation kind contextual
    pure (tag_ids entities)

  pub list_models : User → String → Exec V.State (List String)
  unfolding list_resources
  list_models = list_resources model_kind

  pub list_application_offers : User → String → Exec V.State (List String)
  unfolding list_resources
  list_application_offers = list_resources offer_kind

  allowed_or : Bool → Exec V.State (Unit {0})
  allowed_or true = pure tt
  allowed_or false = raise (codef code_unauthorized "user not allowed")

  -- CheckPermission; `resource` is what names.ParseTag gives for the resource's tag.
  unfoldable pub check_permission : User → Result JujuTag → String → Exec V.State (Unit {0})
  unfolding user_check permission_relation allowed_or codef
  check_permission u resource permission =
      if u.connected
      then (do
        target ← lift resource
        allowed ← user_check u target (permission_relation permission)
        allowed_or allowed)
      else raise (codef code_unauthorized "cannot check permission")
