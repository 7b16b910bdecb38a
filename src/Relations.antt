-- ===== src/Relations.antt =====
-- internal/jimm/permissions/relations.go: who may change which relations, and the changes in batches.
-- The resolution of tags (parseAndValidateTag of tagresolver.go, over JIMM's database) is an interface.
pub mod Authorized
pub mod Written
pub mod Listing
mod Tests
use jimm.Prelude.{
  ℕ, zero, suc, length, String, Bool, true, false, not, ◌&&◌, ◌||◌, Option, none, some, List, [],
  ◌∷◌, ◌++◌, map, ◌==◌, string_eq, elem, if◌then◌else◌,
}
use jimm.Errors.{
  Error, plain, message, codef, codef_wrap, code_unauthorized, code_bad_request,
  code_openfga_request_failed, code_failed_to_parse_tuple_key, Result, ok, err, spent,
}
use jimm.Exec.{Exec, pure, raise, lift, attempt, ◌>>=◌, ◌>>◌}
use jimm.Exec.Batches.{batches}
use jimm.Ofga.Names.{
  Tag, JujuTag, convert_tag, parse_relation, user_kind, group_kind, idp_group_kind, role_kind,
  controller_kind, model_kind, offer_kind, cloud_kind, administrator_relation, reader_relation,
  writer_relation, consumer_relation, can_addmodel_relation, audit_log_viewer_relation,
}
use jimm.Ofga.Tuples.{Tuple}
use jimm.Ofga.Server.{Server, CheckItem}
use jimm.Ofga.Client.{add_relation, remove_relation, check_relation, batch_check_relations}
use jimm.User.{User, resource_tag, contextual_tuples}

-- apiparams.RelationshipTuple
pub record RelationshipTuple : Type 0 where
  pub object : String
  pub relation : String
  pub target_object : String

-- BATCH_SIZE_OPENFGA
abbrev pub batch_size_openfga : ℕ
batch_size_openfga = 100

abbrev pub resource_admin_relations : List String
resource_admin_relations =
    administrator_relation ∷ reader_relation ∷ writer_relation ∷ consumer_relation
    ∷ can_addmodel_relation ∷ audit_log_viewer_relation ∷ []

abbrev pub grantable_object_kinds : List String
grantable_object_kinds = user_kind ∷ group_kind ∷ idp_group_kind ∷ role_kind ∷ []

-- the kinds of target in authorizeRelationTargetAdmin for which the caller is checked
abbrev pub checked_target_kinds : List String
checked_target_kinds = controller_kind ∷ model_kind ∷ offer_kind ∷ cloud_kind ∷ []

-- What the manager takes from elsewhere: parseAndValidateTag, and NewUserFromTag, which looks the user
-- and the groups up.
pub record Directory (V : Server) : Type 0 where
  pub parse_and_validate_tag : String → Exec V.State Tag
  pub new_user_from_tag : String → Exec V.State User

module _ (V : Server) where
  unauthorized : Exec V.State (Unit {0})
  unfolding codef
  unauthorized = raise (codef code_unauthorized "unauthorized")

  -- the answer of the check on the target; an error of the server is a failed request
  unfoldable admin_answer : Result Bool → Exec V.State (Unit {0})
  unfolding codef_wrap unauthorized
  admin_answer (ok true) = pure tt
  admin_answer (ok false) = unauthorized
  admin_answer (err e) = raise (codef_wrap code_openfga_request_failed e)
  admin_answer spent = lift spent

  unfoldable check_target_admin : User → Option Tag → Exec V.State (Unit {0})
  unfolding check_relation admin_answer
  check_target_admin user target = do
    contextual ← lift (contextual_tuples user)
    r ← attempt (
        check_relation V
          (record {
            object = some (convert_tag (resource_tag user));
            relation = administrator_relation;
            target = target;
          })
          false contextual)
    admin_answer r

  -- The target of a parsed tuple is there; a nil one would be a Go panic.
  unfoldable target_kind : Option Tag → String
  target_kind none = ""
  target_kind (some t) = t.kind

  unfoldable authorize_object : User → Tuple → Option Tag → Exec V.State (Unit {0})
  unfolding codef unauthorized check_target_admin target_kind
  authorize_object user tuple none = raise (codef code_bad_request "object not specified")
  authorize_object user tuple (some object) =
      if elem object.kind grantable_object_kinds
      then (if elem (target_kind tuple.target) checked_target_kinds
          then check_target_admin user tuple.target
          else unauthorized)
      else unauthorized

  -- authorizeRelationTargetAdmin
  unfoldable pub authorize_relation_target_admin : User → Tuple → Exec V.State (Unit {0})
  unfolding authorize_object unauthorized
  authorize_relation_target_admin user tuple =
      if user.jimm_admin
      then pure tt
      else if elem tuple.relation resource_admin_relations
      then authorize_object user tuple tuple.object
      else unauthorized

  -- the first loop of AddRelation and RemoveRelation
  unfoldable pub authorize_all : User → List Tuple → Exec V.State (Unit {0})
  unfolding authorize_relation_target_admin
  authorize_all user [] = pure tt
  authorize_all user (t ∷ ts) = do authorize_relation_target_admin user t; authorize_all user ts

  -- an error of a write is a failed request
  unfoldable write_answer : Result (Unit {0}) → Exec V.State (Unit {0})
  unfolding codef_wrap
  write_answer (ok a) = pure tt
  write_answer (err e) = raise (codef_wrap code_openfga_request_failed e)
  write_answer spent = lift spent

  -- the second loop: one write for each batch, until one fails
  unfoldable pub write_batches :
      (List Tuple → Exec V.State (Unit {0})) → List (List Tuple) → Exec V.State (Unit {0})
  unfolding write_answer
  write_batches write [] = pure tt
  write_batches write (b ∷ bs) = do r ← attempt (write b); write_answer r; write_batches write bs

module _ (V : Server) (D : Directory V) where
  unfoldable tag_answer : {A : Type 0} → String → Result A → Exec V.State A
  unfolding codef
  tag_answer text (ok a) = pure a
  tag_answer text (err e) = raise (codef code_failed_to_parse_tuple_key text)
  tag_answer text spent = lift spent

  -- the wrapper of errors in parseTuple
  unfoldable tag_error : {A : Type 0} → String → Exec V.State A → Exec V.State A
  unfolding tag_answer
  tag_error text m = do r ← attempt m; tag_answer text r

  unfoldable parse_object : String → Exec V.State (Option Tag)
  unfolding tag_error
  parse_object object =
      if object == ""
      then pure none
      else tag_error "failed to parse tuple object key"
          (D.parse_and_validate_tag object >>= λ t. pure (some t))

  -- parseTuple, once the relation is known
  unfoldable parse_tags : RelationshipTuple → String → Exec V.State Tuple
  unfolding parse_object tag_error codef
  parse_tags tuple relation =
      if tuple.target_object == ""
      then raise (codef code_bad_request "target object not specified")
      else (do
        target ←
            tag_error "failed to parse tuple target object key"
              (D.parse_and_validate_tag tuple.target_object)
        object ← parse_object tuple.object
        pure (record { object = object; relation = relation; target = some target }))

  abbrev bad_relation : Result String → Result String
  bad_relation (err e) = err (codef_wrap code_bad_request e)
  bad_relation r = r

  -- parseTuple
  unfoldable pub parse_tuple : RelationshipTuple → Exec V.State Tuple
  unfolding parse_tags codef_wrap
  parse_tuple tuple = do
    relation ← lift (bad_relation (parse_relation tuple.relation))
    parse_tags tuple relation

  -- parseTuples
  unfoldable pub parse_tuples : List RelationshipTuple → Exec V.State (List Tuple)
  unfolding parse_tuple
  parse_tuples [] = pure []
  parse_tuples (t ∷ ts) = do key ← parse_tuple t; keys ← parse_tuples ts; pure (key ∷ keys)

  -- AddRelation
  unfoldable pub add_relations : User → List RelationshipTuple → Exec V.State (Unit {0})
  unfolding parse_tuples authorize_all write_batches add_relation
  add_relations user tuples = do
    parsed ← parse_tuples tuples
    authorize_all V user parsed
    write_batches V (add_relation V) (batches (length parsed) batch_size_openfga parsed)

  -- RemoveRelation
  unfoldable pub remove_relations : User → List RelationshipTuple → Exec V.State (Unit {0})
  unfolding parse_tuples authorize_all write_batches remove_relation
  remove_relations user tuples = do
    parsed ← parse_tuples tuples
    authorize_all V user parsed
    write_batches V (remove_relation V) (batches (length parsed) batch_size_openfga parsed)

  abbrev is_self : User → Option Tag → Bool
  is_self user none = false
  is_self user (some o) = o.kind == user_kind && o.id == user.name

  -- parseAndAuthorizeRelationCheck
  unfoldable pub parse_and_authorize_relation_check : User → RelationshipTuple → Exec V.State Tuple
  unfolding parse_tuple authorize_relation_target_admin
  parse_and_authorize_relation_check user tuple = do
    parsed ← parse_tuple tuple
    if is_self user parsed.object then pure tt else authorize_relation_target_admin V user parsed
    pure parsed

  -- whose contextual tuples CheckRelation uses: another user's are looked up
  abbrev subject_tuples : User → Option Tag → Exec V.State (List Tuple)
  subject_tuples user none = lift (contextual_tuples user)
  subject_tuples user (some o) =
      if o.kind == user_kind && not (user.name == o.id)
      then (D.new_user_from_tag o.id >>= λ target. lift (contextual_tuples target))
      else lift (contextual_tuples user)

  -- an error of the server is a failed request
  unfoldable check_answer : Result Bool → Exec V.State Bool
  unfolding codef_wrap
  check_answer (err e) = raise (codef_wrap code_openfga_request_failed e)
  check_answer r = lift r

  -- CheckRelation
  unfoldable pub check_user_relation : User → RelationshipTuple → Bool → Exec V.State Bool
  unfolding parse_and_authorize_relation_check check_relation check_answer
  check_user_relation user tuple trace = do
    parsed ← parse_and_authorize_relation_check user tuple
    contextual ← subject_tuples user parsed.object
    r ← attempt (check_relation V parsed trace contextual)
    check_answer r
