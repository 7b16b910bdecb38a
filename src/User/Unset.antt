-- ===== src/User/Unset.antt =====
-- unsetMultipleResourceAccesses: the loop over the pages ends, and exactly the listed relations go.
use mathlib.Core.List.{append_assoc, map-append}
use jimm.Prelude.{
  ℕ, zero, suc, ◌<◌, ◌≡◌, ◌≢◌, refl, sym, ap, ◌∙◌, subst, String, true, false, false≢true, not,
  ◌||◌, List, [], ◌∷◌, ◌++◌, map, arith, Bool-cases, inl, inr, elem, length, length-append,
  length-pos, select, elem-select, length-select-le, select_congr_mem, without, ◌==◌, string_eq,
  eq_iff, ==_refl,
}
use jimm.Errors.{Error, Result, ok, err, spent}
use jimm.Exec.{Exec}
use jimm.Exec.Rules.{>>=-cases, run-cases}
use jimm.Ofga.Names.{JujuTag, convert_tag}
use jimm.Ofga.Tuples.{Tuple, tag_eq, tuple_eq, tuple_beq_iff, matches}
use jimm.Ofga.Server.{Server, ReadLaws, WriteLaws}
use jimm.Ofga.Client.{remove_relation}
use jimm.User.{User, user_tuple, read_relations, wrapped, wrapping, unset_accesses}

abbrev relations : List Tuple → List String
relations = map (λ (t : Tuple). t.relation)

module _ (V : Server) (R : ReadLaws V) (p : Tuple) where
  -- What the loop returns: the relations seen before, and those of all the pages to come.
  read_relations_exact :
      (fuel n : ℕ) (token : String) (seen : List String) (s : V.State)
      → length (V.pending p token s) < fuel
      → ((read_relations V fuel p n token seen s).0 ≢ spent)
        × (V.tuples (read_relations V fuel p n token seen s).1 ≡ V.tuples s)
        × ((all : List String)
            → (read_relations V fuel p n token seen s).0 ≡ ok all
            → all ≡ seen ++ relations (V.pending p token s))
  unfolding read_relations
  read_relations_exact zero n token seen s h = absurd (omega arith)
  read_relations_exact (suc fuel) n token seen s h =
      >>=-cases
        (λ r.
          (r.0 ≢ spent)
          × (V.tuples r.1 ≡ V.tuples s)
          × ((all : List String) → r.0 ≡ ok all → all ≡ seen ++ relations (V.pending p token s)))
        (V.find_matching_tuples p n token) _ s
        (λ (found, ct) s1 e.
          let kept : V.tuples s1 ≡ V.tuples s =
            ap (λ r. V.tuples r.1) (sym e) ∙ R.read_keeps p n token s in
          elim (Bool-cases (ct == "")) [
            | inl done ↦
                let last : V.pending p token s ≡ found = R.read_last p n token s s1 found (
                  subst (λ c. V.find_matching_tuples p n token s ≡ (ok (found, c), s1))
                    ((eq_iff ct "").0 done) e) in
                rw done (
                  λ z. cc,
                  kept,
                  λ all z. ground arith ∙ ap (λ ts. seen ++ relations ts) (sym last),
                )
            | inr next ↦
                let (some_found, split) =
                  R.read_more p n token ct s s1 found e
                    (λ z. false≢true (sym next ∙ (eq_iff ct "").1 z)) in
                let ih = read_relations_exact fuel n ct (seen ++ relations found) s1 (
                  omega (
                    arith,
                    ap length split,
                    length-append found (V.pending p ct s1),
                    length-pos found some_found,
                  )) in
                rw next (
                  ih.0,
                  ih.1 ∙ kept,
                  λ all z.
                      ih.2 all z
                      ∙ append_assoc seen (relations found) _
                      ∙ ap (λ ts. seen ++ ts) (sym (map-append _ found _))
                      ∙ ap (λ ts. seen ++ relations ts) (sym split),
                )
          ])
        (λ x s1 e. (
          λ z. cc,
          ap (λ r. V.tuples r.1) (sym e) ∙ R.read_keeps p n token s,
          λ all z. absurd (cc),
        ))
        (λ s1 e. absurd (R.read_ends p n token s (ap (λ r. r.0) e)))

elem-relations :
    (t : Tuple) (ts : List Tuple) → elem t ts ≡ true → elem t.relation (relations ts) ≡ true
elem-relations t [] m = m
elem-relations t (x ∷ ts) m = elim (Bool-cases (t == x)) [
  | inl same ↦
      let same' : t.relation ≡ x.relation =
        ap (λ (y : Tuple). y.relation) ((tuple_beq_iff t x).0 same) in
      ground (arith, (eq_iff t.relation x.relation).1 same')
  | inr other ↦ ground (arith, elem-relations t ts (ground (arith, m, other)))
]

module _ (u : User) (resource : JujuTag) where
  -- The query of unsetMultipleResourceAccesses is about each relation of the user to the resource.
  query_matches : (r : String) → matches (user_tuple u resource "") (user_tuple u resource r) ≡ true
  unfolding matches
  query_matches r =
      let o = convert_tag (record { kind = "user"; id = u.name }) in
      let t = convert_tag resource in
      ground (arith, ==_refl o, ==_refl o.kind, ==_refl t, ==_refl t.kind)

  abbrev existing : List Tuple → List String
  existing xs = relations (select (matches (user_tuple u resource "")) xs)

  -- A stored relation to the resource is among those that the loop has read.
  stored-existing :
      (xs : List Tuple) (x : Tuple) (r : String)
      → elem x xs ≡ true
      → (x == user_tuple u resource r) ≡ true
      → elem r (existing xs) ≡ true
  stored-existing xs x r m same =
      let same' : x ≡ user_tuple u resource r =
        (tuple_beq_iff x (user_tuple u resource r)).0 same in
      let hit : matches (user_tuple u resource "") x ≡ true =
        ap (matches (user_tuple u resource "")) same' ∙ query_matches r in
      let among : elem x (select (matches (user_tuple u resource "")) xs) ≡ true =
        elem-select (matches (user_tuple u resource "")) x xs ∙ ground (arith, hit, m) in
      ap (λ (y : Tuple). elem y.relation (existing xs)) (sym same')
      ∙ elem-relations x (select (matches (user_tuple u resource "")) xs) among

  -- So leaving out the relations that are not stored makes no difference to the removal.
  elem-existing :
      (xs : List Tuple) (rels : List String) (x : Tuple)
      → elem x xs ≡ true
      → elem x (map (user_tuple u resource) (select (λ r. elem r (existing xs)) rels))
        ≡ elem x (map (user_tuple u resource) rels)
  unfolding select
  elem-existing xs [] x m = refl
  elem-existing xs (r ∷ rels) x m = elim (Bool-cases (elem r (existing xs))) [
    | inl there ↦ rw there (ap (λ b. x == user_tuple u resource r || b) (elem-existing xs rels x m))
    | inr missing ↦
        let apart : (x == user_tuple u resource r) ≡ false =
          elim (Bool-cases (x == user_tuple u resource r)) [
            | inl same ↦ absurd (false≢true (sym missing ∙ stored-existing xs x r m same))
            | inr other ↦ other
          ] in
        rw (missing, apart) (elem-existing xs rels x m)
  ]

module _ {A : Type 0} (V : Server) (context : String) (m : Exec V.State A) (s : V.State) where
  wrapping-ok : (a : A) → (wrapping V context m s).0 ≡ ok a → (m s).0 ≡ ok a
  unfolding wrapping
  wrapping-ok a h = ground arith

  wrapping-err : (e : Error) → (wrapping V context m s).0 ≡ err e → (x : Error) × ((m s).0 ≡ err x)
  unfolding wrapping
  wrapping-err e h = ground arith

  wrapping-spent : (wrapping V context m s).0 ≡ spent → (m s).0 ≡ spent
  unfolding wrapping
  wrapping-spent h = ground arith

  wrapping-state : (r : Result A) (s' : V.State) → wrapping V context m s ≡ (r, s') → (m s).1 ≡ s'
  unfolding wrapping
  wrapping-state r s' e = ap (λ q. q.1) e

-- How unsetMultipleResourceAccesses ends for the tuples `goal`: within its fuel, with those gone
-- when it reports no error, and with all in place when it does.
pub record Unset (V : Server) (goal before : List Tuple) (r : Result (Unit {0}) × V.State)
    : Type 0 where
  pub ended : r.0 ≢ spent
  pub gone : r.0 ≡ ok tt → V.tuples r.1 ≡ without goal before
  pub kept : (e : Error) → r.0 ≡ err e → V.tuples r.1 ≡ before

-- The message that an error is given changes nothing of that.
pub wrapped-Unset :
    (V : Server) (context : String) (goal before : List Tuple) (r : Result (Unit {0})) (s : V.State)
    → Unset V goal before (r, s)
    → Unset V goal before (wrapped context r, s)
wrapped-Unset V context goal before (ok a) s h = h
wrapped-Unset V context goal before (err e) s h = record {
  ended = λ z. cc;
  gone = λ z. absurd (cc);
  kept = λ x z. h.kept e refl;
}
wrapped-Unset V context goal before spent s h = absurd (h.ended refl)

module _ (V : Server) (R : ReadLaws V) (W : WriteLaws V) (fuel : ℕ) (u : User) (resource : JujuTag)
    (rels : List String) (s : V.State) (enough : length (V.tuples s) < fuel) where
  abbrev query : Tuple
  query = user_tuple u resource ""

  abbrev goal : List Tuple
  goal = map (user_tuple u resource) rels

  abbrev reading : Exec V.State (List String)
  reading = read_relations V fuel query 0 "" []

  few : length (V.pending query "" s) < fuel
  few =
      omega (
        arith,
        enough,
        ap length (R.read_all query s),
        length-select-le (matches query) (V.tuples s),
      )

  reading_exact :
      ((reading s).0 ≢ spent)
      × (V.tuples (reading s).1 ≡ V.tuples s)
      × ((all : List String) → (reading s).0 ≡ ok all → all ≡ relations (V.pending query "" s))
  reading_exact = read_relations_exact V R query fuel 0 "" [] s few

  -- The second part: the removal of the relations that are there.
  removal-Unset :
      (found : List String) (s1 : V.State)
      → found ≡ existing u resource (V.tuples s)
      → V.tuples s1 ≡ V.tuples s
      → Unset V goal (V.tuples s) (
          wrapping V "failed to remove relations"
            (remove_relation V (map (user_tuple u resource) (select (λ r. elem r found) rels)))
            s1)
  unfolding remove_relation
  removal-Unset found s1 all same =
      let part = map (user_tuple u resource) (select (λ r. elem r found) rels) in
      let m : Exec V.State (Unit {0}) = remove_relation V part in
      run-cases (Unset V goal (V.tuples s)) (wrapping V "failed to remove relations" m) s1
        (λ a s2 e. record {
          ended = λ z. cc;
          gone = λ _.
              let p : (m s1).0 ≡ ok tt = wrapping-ok V _ m s1 tt (ap (λ r. r.0) e) in
              let q : (m s1).1 ≡ s2 = wrapping-state V _ m s1 (ok a) s2 e in
              W.removed part s1 s2 (λ i. (p i, q i))
              ∙ ap (without part) same
              ∙ ap
                  (λ f.
                    without (map (user_tuple u resource) (select (λ r. elem r f) rels))
                      (V.tuples s))
                  all
              ∙ select_congr_mem _ _ (V.tuples s)
                  (λ x m'. ap not (elem-existing u resource (V.tuples s) rels x m'));
          kept = λ x z. absurd (cc);
        })
        (λ x s2 e. record {
          ended = λ z. cc;
          gone = λ z. absurd (cc);
          kept = λ y z.
              let (x', p) = wrapping-err V _ m s1 x (ap (λ r. r.0) e) in
              let q : (m s1).1 ≡ s2 = wrapping-state V _ m s1 (err x) s2 e in
              W.not_removed part s1 s2 x' (λ i. (p i, q i)) ∙ same;
        })
        (λ s2 e. absurd (W.remove_ends part s1 (wrapping-spent V _ m s1 (ap (λ r. r.0) e))))

  -- With more rounds than there are stored tuples the call ends; without an error exactly the listed
  -- direct relations of the user to the resource are gone, and after an error nothing is.
  pub unset_accesses_exact : Unset V goal (V.tuples s) (unset_accesses V fuel u resource rels s)
  unfolding unset_accesses
  unset_accesses_exact =
      >>=-cases (Unset V goal (V.tuples s))
        (wrapping V "failed to retrieve existing relations" reading) _ s
        (λ found s1 e.
          removal-Unset found s1
            (reading_exact.2 found (wrapping-ok V _ reading s found (ap (λ r. r.0) e))
              ∙ ap relations (R.read_all query s))
            (ap V.tuples (sym (wrapping-state V _ reading s (ok found) s1 e)) ∙ reading_exact.1))
        (λ x s1 e. record {
          ended = λ z. cc;
          gone = λ z. absurd (cc);
          kept = λ y z.
              ap V.tuples (sym (wrapping-state V _ reading s (err x) s1 e)) ∙ reading_exact.1;
        })
        (λ s1 e. absurd (reading_exact.0 (wrapping-spent V _ reading s (ap (λ r. r.0) e))))
