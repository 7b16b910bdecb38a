-- ===== src/Access/Effect.antt =====
-- What granting and revoking access to a cloud or a model must do, and the laws of the database that
-- this relies on.
use jimm.Prelude.{
  ◌≡◌, ◌≢◌, String, true, false, List, [], ◌∷◌, elem, ◌==◌, string_eq, if◌then◌else◌,
}
use jimm.Errors.{Result, ok, spent}
use jimm.Ofga.Names.{
  JujuTag, administrator_relation, writer_relation, reader_relation, can_addmodel_relation,
}
use jimm.Ofga.Tuples.{Tuple, tuple_eq}
use jimm.Ofga.Server.{Server}
use jimm.User.{User, user_tuple}
use jimm.Access.{Manager}

-- GetIdentity reads JIMM's database, and changes nothing in OpenFGA.
pub record ManagerLaws (V : Server) (M : Manager V) : Type 0 where
  pub identity_keeps :
      (name : String) (s : V.State) → V.tuples (M.get_identity name s).1 ≡ V.tuples s
  pub identity_ends : (name : String) (s : V.State) → (M.get_identity name s).0 ≢ spent

-- In the authorization model a level of access implies those below it.
pub record Hierarchy (V : Server) : Type 0 where
  pub writers_read :
      (stored ctx : List Tuple) (u : User) (m : JujuTag)
      → V.allowed stored ctx (user_tuple u m writer_relation) ≡ true
      → V.allowed stored ctx (user_tuple u m reader_relation) ≡ true
  pub admins_write :
      (stored ctx : List Tuple) (u : User) (m : JujuTag)
      → V.allowed stored ctx (user_tuple u m administrator_relation) ≡ true
      → V.allowed stored ctx (user_tuple u m writer_relation) ≡ true
  pub admins_add_models :
      (stored ctx : List Tuple) (u : User) (c : JujuTag)
      → V.allowed stored ctx (user_tuple u c administrator_relation) ≡ true
      → V.allowed stored ctx (user_tuple u c can_addmodel_relation) ≡ true

-- The levels down to `level`, the highest first.
abbrev pub up_to : String → List String → List String
up_to level [] = []
up_to level (l ∷ ls) = if l == level then l ∷ [] else l ∷ up_to level ls

-- A request to revoke has ended: without running out of fuel; when it reports no error the user has
-- no stored relation to the resource among `levels`; whatever it reports, the other tuples that were
-- stored still are.
pub record Revoked (V : Server) (u : User) (resource : JujuTag) (levels : List String)
    (before : List Tuple) (r : Result (Unit {0}) × V.State) : Type 0 where
  pub ended : r.0 ≢ spent
  pub gone :
      r.0 ≡ ok tt
      → (l : String) → elem l levels ≡ true
      → elem (user_tuple u resource l) (V.tuples r.1) ≡ false
  pub kept :
      (t : Tuple)
      → ((l : String) → elem l levels ≡ true → t ≢ user_tuple u resource l)
      → elem t before ≡ true
      → elem t (V.tuples r.1) ≡ true

-- A request to grant `level` has ended: when it reports no error the authorization model grants it;
-- whatever it reports, the tuples that were stored still are, and no other is but the one granted.
pub record Granted (V : Server) (u : User) (resource : JujuTag) (level : String)
    (before : List Tuple) (r : Result (Unit {0}) × V.State) : Type 0 where
  pub ended : r.0 ≢ spent
  pub allows : r.0 ≡ ok tt → V.allowed (V.tuples r.1) [] (user_tuple u resource level) ≡ true
  pub kept : (t : Tuple) → elem t before ≡ true → elem t (V.tuples r.1) ≡ true
  pub only :
      (t : Tuple)
      → t ≢ user_tuple u resource level
      → elem t (V.tuples r.1) ≡ true
      → elem t before ≡ true
