-- ===== src/User/Listed.antt =====
-- internal/openfga/user.go: ListUsersWithAccess.
use jimm.Prelude.{String, Option, none, some, List, map, ◌==◌, string_eq, if◌then◌else◌}
use jimm.Errors.{Result, ok}
use jimm.Exec.{Exec, pure, ◌>>=◌}
use jimm.Ofga.Names.{Tag, JujuTag, convert_tag, everyone_user}
use jimm.Ofga.Tuples.{Tuple}
use jimm.User.{User, new_user}

-- A user whose identity is nil is `none`: an identifier that NewIdentity refuses is only logged.
abbrev listed : Result String → Option User
listed (ok name) = some (new_user name)
listed other = none

-- FindUsersByRelation of the client library and NewIdentity are parameters.
unfoldable pub list_users_with_access :
    {S : Type 0}
    → (Tuple → Exec S (List Tag))
    → (String → Result String)
    → JujuTag
    → String
    → Exec S (List (Option User))
unfolding convert_tag
list_users_with_access find_users_by_relation new_identity resource relation = do
  entities ←
      find_users_by_relation
        (record { object = none; relation = relation; target = some (convert_tag resource) })
  pure (
      map (λ (e : Tag). listed (new_identity (if e.id == "*" then everyone_user else e.id)))
        entities)
