-- ===== src/Ofga/Server.antt =====
-- What JIMM relies on of OpenFGA and of its client library (github.com/canonical/ofga), which are
-- not part of the repository: the calls that internal/openfga makes, and their documented behaviour.
-- Every call threads the server's state, and may fail.
use text.Mathlib.Text.{find?}
use jimm.Prelude.{
  map, All, find, string_eq, length, ◌≤◌, ◌+◌, none, some, [], ◌∷◌, false, ℕ, ◌++◌, String, Bool,
  true, ◌||◌, ◌≡◌, ◌≢◌, List, [], elem, select, without,
}
use jimm.Errors.{message, Error, ok, err, spent}
use jimm.Exec.{Exec}
use jimm.Ofga.Names.{Tag}
use jimm.Ofga.Tuples.{Tuple, tuple_eq, matches}

-- strings.Contains
abbrev pub contains : String → String → Bool
contains s sub = elim (find? s sub) [ none ↦ false | some i ↦ true ]

abbrev pub exists_text : String
exists_text = "cannot write a tuple which already exists"

abbrev pub absent_text : String
absent_text = "cannot delete a tuple which does not exist"

-- cofga.TupleWithCorrelationId
pub record CheckItem : Type 0 where
  pub tuple : Tuple
  pub correlation_id : String
  pub contextual : List Tuple

pub record Server : Type 1 where
  pub State : Type 0
  -- the relationship tuples that are stored
  pub tuples : State → List Tuple
  -- FindMatchingTuples: a page and the token of the next one, empty at the end
  pub find_matching_tuples : Tuple → ℕ → String → Exec State (List Tuple × String)
  -- what the reads from a token on will deliver
  pub pending : Tuple → String → State → List Tuple
  -- AddRelationIdempotent
  pub add_relation_idempotent : List Tuple → Exec State (Unit {0})
  -- RemoveRelationIdempotent
  pub remove_relation_idempotent : List Tuple → Exec State (Unit {0})
  -- CheckRelation and CheckRelationWithTracing, with contextual tuples
  pub check_relation : Tuple → List Tuple → Exec State Bool
  pub check_relation_with_tracing : Tuple → List Tuple → Exec State Bool
  -- BatchCheckRelations: an answer for each correlation id
  pub batch_check_relations : List CheckItem → Exec State (List (String × Bool))
  -- FindAccessibleObjectsByRelation
  pub find_accessible_objects : Tuple → List Tuple → Exec State (List Tag)
  -- what the authorization model decides from stored and contextual tuples
  pub allowed : List Tuple → List Tuple → Tuple → Bool

-- Reads: the pages from the empty token on hold the matching tuples, and only the last can be empty.
pub record ReadLaws (V : Server) : Type 0 where
  pub read_keeps :
      (p : Tuple) (n : ℕ) (tok : String) (s : V.State)
      → V.tuples (V.find_matching_tuples p n tok s).1 ≡ V.tuples s
  pub read_all : (p : Tuple) (s : V.State) → V.pending p "" s ≡ select (matches p) (V.tuples s)
  pub read_last :
      (p : Tuple) (n : ℕ) (tok : String) (s s' : V.State) (ts : List Tuple)
      → V.find_matching_tuples p n tok s ≡ (ok (ts, ""), s')
      → V.pending p tok s ≡ ts
  pub read_more :
      (p : Tuple) (n : ℕ) (tok next : String) (s s' : V.State) (ts : List Tuple)
      → V.find_matching_tuples p n tok s ≡ (ok (ts, next), s')
      → next ≢ ""
      → (ts ≢ []) × (V.pending p tok s ≡ ts ++ V.pending p next s')
  pub read_ends :
      (p : Tuple) (n : ℕ) (tok : String) (s : V.State)
      → (V.find_matching_tuples p n tok s).0 ≢ spent

-- Writes are transactions: a failed one changes nothing.
pub record WriteLaws (V : Server) : Type 0 where
  pub added :
      (ts : List Tuple) (s s' : V.State)
      → V.add_relation_idempotent ts s ≡ (ok tt, s')
      → (t : Tuple) → elem t (V.tuples s') ≡ (elem t (V.tuples s) || elem t ts)
  pub added_few :
      (ts : List Tuple) (s s' : V.State)
      → V.add_relation_idempotent ts s ≡ (ok tt, s')
      → length (V.tuples s') ≤ length ts + length (V.tuples s)
  pub not_added :
      (ts : List Tuple) (s s' : V.State) (e : Error)
      → V.add_relation_idempotent ts s ≡ (err e, s')
      → V.tuples s' ≡ V.tuples s
  pub removed :
      (ts : List Tuple) (s s' : V.State)
      → V.remove_relation_idempotent ts s ≡ (ok tt, s')
      → V.tuples s' ≡ without ts (V.tuples s)
  pub not_removed :
      (ts : List Tuple) (s s' : V.State) (e : Error)
      → V.remove_relation_idempotent ts s ≡ (err e, s')
      → V.tuples s' ≡ V.tuples s
  -- the texts by which a client knows that a write had nothing to do
  pub exists_already :
      (t : Tuple) (s s' : V.State) (e : Error)
      → V.add_relation_idempotent (t ∷ []) s ≡ (err e, s')
      → contains (message e) exists_text ≡ true
      → elem t (V.tuples s) ≡ true
  pub absent_already :
      (t : Tuple) (s s' : V.State) (e : Error)
      → V.remove_relation_idempotent (t ∷ []) s ≡ (err e, s')
      → contains (message e) absent_text ≡ true
      → elem t (V.tuples s) ≡ false
  pub add_ends : (ts : List Tuple) (s : V.State) → (V.add_relation_idempotent ts s).0 ≢ spent
  pub remove_ends : (ts : List Tuple) (s : V.State) → (V.remove_relation_idempotent ts s).0 ≢ spent

-- Checks: they change no tuple, and answer from the stored and the contextual tuples.
pub record CheckLaws (V : Server) : Type 0 where
  pub check_keeps :
      (t : Tuple) (ctx : List Tuple) (s : V.State)
      → V.tuples (V.check_relation t ctx s).1 ≡ V.tuples s
  pub trace_keeps :
      (t : Tuple) (ctx : List Tuple) (s : V.State)
      → V.tuples (V.check_relation_with_tracing t ctx s).1 ≡ V.tuples s
  pub check_answer :
      (t : Tuple) (ctx : List Tuple) (s s' : V.State) (b : Bool)
      → V.check_relation t ctx s ≡ (ok b, s')
      → b ≡ V.allowed (V.tuples s) ctx t
  pub trace_answer :
      (t : Tuple) (ctx : List Tuple) (s s' : V.State) (b : Bool)
      → V.check_relation_with_tracing t ctx s ≡ (ok b, s')
      → b ≡ V.allowed (V.tuples s) ctx t
  -- a stored tuple grants its own relation
  pub direct :
      (stored ctx : List Tuple) (t : Tuple) → elem t stored ≡ true → V.allowed stored ctx t ≡ true

-- The correlation ids of a batch.
abbrev pub ids : List CheckItem → List String
ids = map (λ (c : CheckItem). c.correlation_id)

abbrev pub NoRepeat : List String → Type 0
NoRepeat [] = Unit
NoRepeat (x ∷ xs) = (elem x xs ≡ false) × NoRepeat xs

-- That the answers give an item what the authorization model decides for it.
abbrev pub Answers : (V : Server) → List Tuple → List (String × Bool) → CheckItem → Type 0
Answers V stored results c =
    find c.correlation_id results ≡ some (V.allowed stored c.contextual c.tuple)

-- A batch of checks whose ids differ: an answer for each id, and for no other.
pub record BatchLaws (V : Server) : Type 0 where
  pub batch_keeps :
      (items : List CheckItem) (s : V.State)
      → V.tuples (V.batch_check_relations items s).1 ≡ V.tuples s
  pub batch_answers :
      (items : List CheckItem) (s s' : V.State) (results : List (String × Bool))
      → V.batch_check_relations items s ≡ (ok results, s')
      → NoRepeat (ids items)
      → All (Answers V (V.tuples s) results) items
  pub batch_others :
      (items : List CheckItem) (s s' : V.State) (results : List (String × Bool)) (id : String)
      → V.batch_check_relations items s ≡ (ok results, s')
      → elem id (ids items) ≡ false
      → find id results ≡ none
