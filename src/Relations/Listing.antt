-- ===== src/Relations/Listing.antt =====
-- internal/jimm/permissions/relations.go: CheckRelations, and the listings of tuples in pages.
pub mod Ranks
pub mod Rounds
pub mod Ends
mod Tests
use jimm.Prelude.{
  ℕ, zero, suc, ◌-◌, length, leb, String, Bool, true, false, not, ◌&&◌, ◌||◌, Option, none, some,
  List, [], ◌∷◌, ◌++◌, map, ◌==◌, string_eq, nat_eq, itoa, find, if◌then◌else◌,
}
use jimm.Errors.{
  Error, codef, codef_wrap, wrapf, code_unauthorized, code_bad_request, code_openfga_request_failed,
  Result, ok, err, spent,
}
use jimm.Exec.{Exec, pure, raise, lift, attempt, give_up, ◌>>=◌, ◌>>◌}
use jimm.Ofga.Names.{Tag, parse_relation}
use jimm.Ofga.Tuples.{Tuple}
use jimm.Ofga.Server.{Server, CheckItem}
use jimm.Ofga.Client.{batch_check_relations, read_related_objects}
use jimm.User.{User, contextual_tuples, wrapping}
use jimm.Pagination.{LimitOffsetPagination}
use jimm.Pagination.Entitlement.{Codec, decode_entitlement_token, next_entitlement_token}
use jimm.Relations.{RelationshipTuple, Directory, parse_tuple, parse_and_authorize_relation_check}

-- openfga.CheckResult
pub record CheckResult : Type 0 where
  pub allowed : Bool
  pub error : Option Error

abbrev refused_result : Error → CheckResult
refused_result e = record { allowed = false; error = some e }

-- One request, once it has been parsed and authorized: an item of the batch, or its error.
pub data Prepared : Type 0 where
  item : CheckItem → Prepared
  failed : Error → Prepared

abbrev items_of : List Prepared → List CheckItem
items_of [] = []
items_of (item c ∷ ps) = c ∷ items_of ps
items_of (failed e ∷ ps) = items_of ps

abbrev found_allowed : Option Bool → Bool
found_allowed none = false
found_allowed (some b) = b

-- The results, in the order of the requests, from the answers of the batch.
unfoldable answered : List (String × Bool) → List Prepared → List CheckResult
unfolding find
answered allowed [] = []
answered allowed (item c ∷ ps) =
    record { allowed = found_allowed (find c.correlation_id allowed); error = none }
    ∷ answered allowed ps
answered allowed (failed e ∷ ps) = refused_result e ∷ answered allowed ps

-- The results where the batch failed.
unfoldable unanswered : Error → List Prepared → List CheckResult
unfolding codef_wrap
unanswered e [] = []
unanswered e (item c ∷ ps) =
    refused_result (codef_wrap code_openfga_request_failed e) ∷ unanswered e ps
unanswered e (failed x ∷ ps) = refused_result x ∷ unanswered e ps

module _ (V : Server) (D : Directory V) where
  abbrev prepare : ℕ → List Tuple → Result Tuple → Exec V.State Prepared
  prepare i contextual (ok t) =
      pure (item (record { tuple = t; correlation_id = itoa i; contextual = contextual }))
  prepare i contextual (err e) = pure (failed e)
  prepare i contextual spent = give_up

  -- the loop over the requests, from the i-th on
  unfoldable prepare_all :
      User → List Tuple → ℕ → List RelationshipTuple → Exec V.State (List Prepared)
  unfolding parse_and_authorize_relation_check itoa
  prepare_all user contextual i [] = pure []
  prepare_all user contextual i (t ∷ ts) = do
    r ← attempt (parse_and_authorize_relation_check V D user t)
    p ← prepare i contextual r
    ps ← prepare_all user contextual (suc i) ts
    pure (p ∷ ps)

  abbrev batch_results :
      List Prepared → Result (List (String × Bool)) → Exec V.State (List CheckResult)
  batch_results ps (ok allowed) = pure (answered allowed ps)
  batch_results ps (err e) = pure (unanswered e ps)
  batch_results ps spent = give_up

  abbrev run_batch : List Prepared → List CheckItem → Exec V.State (List CheckResult)
  run_batch ps [] = pure (answered [] ps)
  run_batch ps (c ∷ cs) = attempt (batch_check_relations V (c ∷ cs)) >>= batch_results ps

  -- CheckRelations: every check is made with the contextual tuples of the caller.
  unfoldable pub check_relations : User → List RelationshipTuple → Exec V.State (List CheckResult)
  unfolding prepare_all answered unanswered batch_check_relations
  check_relations user [] = pure []
  check_relations user (t ∷ ts) = do
    contextual ← lift (contextual_tuples user)
    ps ← prepare_all user contextual 0 (t ∷ ts)
    run_batch ps (items_of ps)

module _ (V : Server) (D : Directory V) (K : Codec) where
  -- The rounds of getObjectRelationsPage, one for each page of OpenFGA, with what was found before
  -- them. A page size is not negative; what is left of it is 0 where the source's goes below 0.
  unfoldable pub relations_pages :
      ℕ → Tag → String → ℕ → String → List Tuple → Exec V.State (List Tuple × String)
  unfolding read_related_objects decode_entitlement_token next_entitlement_token
  relations_pages zero object relation page_size token found = give_up
  relations_pages (suc fuel) object relation page_size token found = do
    (ct, kind) ← lift (decode_entitlement_token K token)
    target ← D.parse_and_validate_tag kind
    (ts, more) ←
        read_related_objects V
          (record { object = some object; relation = relation; target = some target }) page_size ct
    next ← lift (next_entitlement_token K kind more)
    elim (leb (page_size - length ts) 0 || (next == "")) [
      | true ↦ pure (found ++ ts, next)
      | false ↦ relations_pages fuel object relation (page_size - length ts) next (found ++ ts)
    ]

  unfoldable pub get_object_relations_page :
      ℕ → String → String → ℕ → String → Exec V.State (List Tuple × String)
  unfolding relations_pages
  get_object_relations_page fuel object relation page_size token = do
    tag ← D.parse_and_validate_tag object
    relations_pages fuel tag relation page_size token []

  -- An empty next page takes the token back.
  abbrev pub next_unless_empty :
      List Tuple × String → (List Tuple × String) → Exec V.State (List Tuple × String)
  next_unless_empty (ts, next) ([], ignored) = pure (ts, "")
  next_unless_empty (ts, next) (_ ∷ _, ignored) = pure (ts, next)

  abbrev pub verified :
      ℕ → String → String → ℕ → List Tuple × String → Exec V.State (List Tuple × String)
  verified fuel object relation page_size (ts, next) =
      if length ts == page_size && not (next == "")
      then wrapping V "error getting next page to verify it cointains something"
          (get_object_relations_page fuel object relation 1 next)
        >>= next_unless_empty (ts, next)
      else pure (ts, next)

  -- listObjectRelations, and ListObjectRelations for the empty relation
  unfoldable pub list_object_relations :
      ℕ → User → String → String → ℕ → String → Exec V.State (List Tuple × String)
  unfolding get_object_relations_page wrapping codef
  list_object_relations fuel user object relation page_size token =
      if not user.jimm_admin
      then raise (codef code_unauthorized "unauthorized")
      else (get_object_relations_page fuel object relation page_size token
          >>= verified fuel object relation page_size)

  abbrev bad_request : Result String → Result String
  bad_request (ok r) = ok r
  bad_request (err e) = err (codef_wrap code_bad_request e)
  bad_request spent = spent

  abbrev any_tuple : Tuple
  any_tuple = record { object = none; relation = ""; target = none }

  unfoldable pub list_relationship_tuples :
      ℕ → User → RelationshipTuple → ℕ → String → Exec V.State (List Tuple × String)
  unfolding list_object_relations parse_tuple read_related_objects codef codef_wrap
  list_relationship_tuples fuel user tuple page_size token =
      if not user.jimm_admin
      then raise (codef code_unauthorized "unauthorized")
      else if tuple.target_object == "" && not (tuple.object == "")
      then (lift (bad_request (parse_relation tuple.relation)) >>= λ relation.
          list_object_relations fuel user tuple.object relation page_size token)
      else ((if not (tuple.target_object == "") then parse_tuple V D tuple else pure any_tuple)
          >>= λ parsed. read_related_objects V parsed page_size token)

-- ListResources over the query of the database
unfoldable pub list_resources :
    {S A : Type 0}
    → (ℕ → ℕ → String → String → Exec S (List A))
    → User
    → LimitOffsetPagination
    → String
    → String
    → Exec S (List A)
unfolding codef
list_resources query user filter name_prefix type =
    if not user.jimm_admin
    then raise (codef code_unauthorized "unauthorized")
    else query filter.limit filter.offset name_prefix type
