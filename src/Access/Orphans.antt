-- ===== src/Access/Orphans.antt =====
-- internal/jimm/permissions/access.go: OpenFGACleanup, which removes the tuples whose entities are gone
-- from the database. The database stays as it is meanwhile.
mod Tests
use jimm.Prelude.{
  ◌≡◌, refl, sym, ap, ◌∙◌, ℕ, zero, suc, Bool, true, false, not, ◌||◌, ◌&&◌, Option, none, some,
  List, [], ◌∷◌, map, String, ◌==◌, string_eq, elem, select, elem-select, without, elem-without,
  arith,
}
use jimm.Errors.{Error, error_code, code_not_found, Result, ok, err, spent}
use jimm.Exec.{Exec, pure, give_up, ◌>>=◌, ◌>>◌}
use jimm.Exec.Rules.{>>=-cases, run-cases}
use jimm.Exec.Triples.{Good, Good-Any, Keeps, Any, pure-Keeps, >>=-Keeps}
use jimm.Ofga.Names.{Tag}
use jimm.Ofga.Tuples.{Tuple, tuple_eq, public_access_adaptor}
use jimm.Ofga.Server.{Server, ReadLaws, WriteLaws}
use jimm.Ofga.Client.{read_related_objects, remove_relation}

abbrev pub not_found : Result String → Bool
not_found (err e) = error_code e == code_not_found
not_found r = false

-- The test of orphanedTuples; `resolve` is ToJAASTag with the UUIDs resolved.
unfoldable pub orphaned : (Option Tag → Result String) → Tuple → Bool
unfolding error_code
orphaned resolve t = not_found (resolve t.object) || not_found (resolve t.target)

unfoldable pub orphaned_tuples : (Option Tag → Result String) → List Tuple → List Tuple
unfolding orphaned select
orphaned_tuples resolve ts = select (orphaned resolve) ts

-- the tuple that every tuple matches
abbrev pub any_tuple : Tuple
any_tuple = record { object = none; relation = ""; target = none }

module _ (V : Server) (resolve : Option Tag → Result String) where
  -- An error of the removal is only logged.
  unfoldable pub remove_orphans : List Tuple → Exec V.State (Unit {0})
  unfolding remove_relation
  remove_orphans [] s = (ok tt, s)
  remove_orphans (t ∷ ts) s = (ok tt, (remove_relation V (t ∷ ts) s).1)

  -- The rounds of the loop are bounded by the fuel.
  unfoldable pub openfga_cleanup : ℕ → String → Exec V.State (Unit {0})
  unfolding read_related_objects orphaned_tuples remove_orphans
  openfga_cleanup zero token = give_up
  openfga_cleanup (suc fuel) token = do
    (found, ct) ← read_related_objects V any_tuple 20 token
    remove_orphans (orphaned_tuples resolve found)
    elim (ct == "") [ true ↦ pure tt | false ↦ openfga_cleanup fuel ct ]

module _ (V : Server) (R : ReadLaws V) (W : WriteLaws V) (resolve : Option Tag → Result String)
    (t : Tuple) (b : Bool) (resolved : orphaned resolve t ≡ false) where
  abbrev Stored : V.State → Type 0
  Stored s = elem t (V.tuples s) ≡ b

  read-Keeps : (token : String) → Keeps Stored (read_related_objects V any_tuple 20 token) Any
  unfolding read_related_objects
  read-Keeps token = record {
    kept = λ s p.
        >>=-cases (λ r. Stored r.1 × Good Any r.0) (V.find_matching_tuples any_tuple 20 token) _ s
          (λ a s1 e. (same s s1 (ap (λ r. r.1) e) p, tt))
          (λ x s1 e. (same s s1 (ap (λ r. r.1) e) p, tt))
          (λ s1 e. (same s s1 (ap (λ r. r.1) e) p, tt));
  }
    where
      same :
          (s s1 : V.State)
          → (V.find_matching_tuples any_tuple 20 token s).1 ≡ s1
          → elem t (V.tuples s) ≡ b
          → elem t (V.tuples s1) ≡ b
      same s s1 e p =
          ap (λ u. elem t (V.tuples u)) (sym e)
          ∙ ap (elem t) (R.read_keeps any_tuple 20 token s)
          ∙ p

  removed-Stored :
      (ts : List Tuple)
      → elem t ts ≡ false
      → (s : V.State) → Stored s
      → Stored (remove_relation V ts s).1
  unfolding remove_relation
  removed-Stored ts h s p =
      run-cases (λ r. Stored r.1) (V.remove_relation_idempotent ts) s
        (λ u s1 e.
          ap (elem t) (W.removed ts s s1 e) ∙ elem-without t ts (V.tuples s) ∙ ground (arith, h, p))
        (λ x s1 e. ap (elem t) (W.not_removed ts s s1 x e) ∙ p)
        (λ s1 e. absurd (W.remove_ends ts s (ap (λ r. r.0) e)))

  orphans-Keeps :
      (ts : List Tuple) → elem t ts ≡ false → Keeps Stored (remove_orphans V resolve ts) Any
  unfolding remove_orphans
  orphans-Keeps [] h = record { kept = λ s p. (p, tt) }
  orphans-Keeps (x ∷ ts) h = record { kept = λ s p. (removed-Stored (x ∷ ts) h s p, tt) }

  not_among : (found : List Tuple) → elem t (orphaned_tuples resolve found) ≡ false
  unfolding orphaned_tuples
  not_among found = elem-select (orphaned resolve) t found ∙ ground (arith, resolved)

  cleanup-Keeps :
      (fuel : ℕ) (token : String) → Keeps Stored (openfga_cleanup V resolve fuel token) Any
  unfolding openfga_cleanup
  cleanup-Keeps zero token = record { kept = λ s p. (p, tt) }
  cleanup-Keeps (suc fuel) token = >>=-Keeps (read-Keeps token) (λ (found, ct) _.
      >>=-Keeps (orphans-Keeps (orphaned_tuples resolve found) (not_among found)) (λ _ _.
        elim (ct == "")
          as (λ last.
            Keeps {A = Unit {0}} Stored
              (elim last as (λ _. Exec V.State (Unit {0})) [
                | true ↦ pure tt
                | false ↦ openfga_cleanup V resolve fuel ct
              ])
              Any) [ true ↦ pure-Keeps tt tt | false ↦ cleanup-Keeps fuel ct ]))

-- Whatever fails on the way, and whether or not it comes to an end: OpenFGACleanup neither adds nor
-- removes a tuple neither end of which is reported as not found.
pub openfga_cleanup_keeps :
    (V : Server) (R : ReadLaws V) (W : WriteLaws V) (resolve : Option Tag → Result String)
    (t : Tuple)
    → orphaned resolve t ≡ false
    → (fuel : ℕ) (token : String) (s : V.State)
    → elem t (V.tuples (openfga_cleanup V resolve fuel token s).1) ≡ elem t (V.tuples s)
openfga_cleanup_keeps V R W resolve t h fuel token s =
    ((cleanup-Keeps V R W resolve t (elem t (V.tuples s)) h fuel token).kept s refl).0
