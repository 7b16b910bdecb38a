-- ===== src/Access/Permissions.antt =====
-- internal/jimm/permissions/access.go: CheckPermission, which adds checked permissions to a map that
-- the caller keeps. A permission map is in the order of its iteration.
pub mod Sound
mod Tests
use jimm.Prelude.{
  ℕ, suc, String, Bool, true, false, Option, none, some, List, [], ◌∷◌, find, put, itoa,
  if◌then◌else◌,
}
use jimm.Errors.{Error, plain, wrapf, Value, string_value, other_value, Result, ok, err, spent}
use jimm.Exec.{Exec, pure, lift, attempt, ◌>>=◌}
use jimm.Ofga.Names.{JujuTag, convert_juju_relation}
use jimm.Ofga.Tuples.{Tuple}
use jimm.Ofga.Server.{Server, CheckItem}
use jimm.Ofga.Client.{batch_check_relations}
use jimm.User.{User, user_tuple, contextual_tuples}

-- A map[string]string; `none` is the nil map.
abbrev pub Cache : Type 0
Cache = Option (List (String × String))

abbrev pub lookup : String → Cache → Option String
lookup key none = none
lookup key (some m) = find key m

pub record PermissionCheck : Type 0 where
  pub key : String
  pub value : String
  pub tag : JujuTag
  pub relation : String

-- The map and error that CheckPermission returns; or the panic of a write to a nil map.
pub data Answer : Type 0 where
  returned : Cache → Option Error → Answer
  panicked : Answer

-- What the loop over the desired permissions comes to.
pub data Collected : Type 0 where
  checks : List PermissionCheck → Collected
  not_a_string : Error → Collected
  refused : Error → Collected

abbrev pub collect_one : String → String → Result JujuTag → Result String → Collected → Collected
collect_one key value (err e) relation rest = refused (plain "failed to parse tag")
collect_one key value spent relation rest = rest
collect_one key value (ok tag) (err e) rest = refused (wrapf "failed to parse relation" e)
collect_one key value (ok tag) spent rest = rest
collect_one key value (ok tag) (ok relation) (checks cs) =
    checks (record { key = key; value = value; tag = tag; relation = relation } ∷ cs)
collect_one key value (ok tag) (ok relation) rest = rest

-- One round of the loop, before what the rounds after it come to; `parse_tag` is names.ParseTag.
unfoldable pub collect_key :
    (String → Result JujuTag) → String → Option String → Value → Collected → Collected
unfolding convert_juju_relation wrapf
collect_key parse_tag key (some w) v rest = rest
collect_key parse_tag key none other_value rest =
    not_a_string (plain "failed to get permission assertion: expected string")
collect_key parse_tag key none (string_value s) rest =
    collect_one key s (parse_tag key) (convert_juju_relation s) rest

unfoldable pub collect : (String → Result JujuTag) → Cache → List (String × Value) → Collected
unfolding collect_key
collect parse_tag cache [] = checks []
collect parse_tag cache ((key, v) ∷ desired) =
    collect_key parse_tag key (lookup key cache) v (collect parse_tag cache desired)

unfoldable pub batch_from : User → List Tuple → ℕ → List PermissionCheck → List CheckItem
batch_from user contextual n [] = []
batch_from user contextual n (c ∷ cs) =
    record {
      tuple = user_tuple user c.tag c.relation;
      correlation_id = itoa n;
      contextual = contextual;
    }
    ∷ batch_from user contextual (suc n) cs

abbrev pub permitted : Option Bool → Bool
permitted none = false
permitted (some b) = b

-- allowed[id], false where there is no entry
unfoldable pub allowed_answer : String → List (String × Bool) → Bool
unfolding find
allowed_answer id results = permitted (find id results)

-- The loop over the answers: each check that is allowed is added to the map before the next.
unfoldable pub add_allowed :
    List (String × Bool) → ℕ → List PermissionCheck → List (String × String) → Answer
unfolding allowed_answer
add_allowed results n [] cache = returned (some cache) none
add_allowed results n (c ∷ cs) cache =
    let rest = add_allowed results (suc n) cs (put c.key c.value cache) in
    if allowed_answer (itoa n) results
    then rest
    else returned (some cache) (some (plain "missing permission"))

-- The same on a nil map, for a list of checks that is not empty.
unfoldable pub add_to_nil : List (String × Bool) → Answer
unfolding allowed_answer
add_to_nil results =
    if allowed_answer (itoa 0) results
    then panicked
    else returned none (some (plain "missing permission"))

module _ (V : Server) where
  abbrev pub add_answers :
      Cache → List PermissionCheck → Result (List (String × Bool)) → Exec V.State Answer
  add_answers cache cs (err e) = pure (returned cache (some e))
  add_answers cache cs spent = lift spent
  add_answers none cs (ok results) = pure (add_to_nil results)
  add_answers (some m) cs (ok results) = pure (add_allowed results 0 cs m)

  abbrev pub check_with :
      Cache → User → List PermissionCheck → Result (List Tuple) → Exec V.State Answer
  check_with cache user cs (err e) = pure (returned cache (some e))
  check_with cache user cs spent = lift spent
  check_with cache user cs (ok contextual) =
      attempt (batch_check_relations V (batch_from user contextual 0 cs)) >>= add_answers cache cs

  abbrev pub check_collected : Cache → User → Collected → Exec V.State Answer
  check_collected cache user (not_a_string e) = pure (returned none (some e))
  check_collected cache user (refused e) = pure (returned cache (some e))
  check_collected cache user (checks []) = pure (returned cache none)
  check_collected cache user (checks (c ∷ cs)) =
      check_with cache user (c ∷ cs) (contextual_tuples user)

  unfoldable pub check_permission :
      (String → Result JujuTag) → User → Cache → List (String × Value) → Exec V.State Answer
  unfolding collect add_allowed add_to_nil batch_from contextual_tuples batch_check_relations
  check_permission parse_tag user cache desired =
      check_collected cache user (collect parse_tag cache desired)
