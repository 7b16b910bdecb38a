-- ===== src/Relations/Written.antt =====
-- AddRelation and RemoveRelation: what the batches of writes leave stored.
use jimm.Prelude.{
  ◌≡◌, ◌≢◌, sym, ap, ◌∙◌, subst, true, false, not, ◌||◌, ◌&&◌, List, [], ◌∷◌, ◌++◌, elem,
  elem-append, elem-without, length, arith,
}
use jimm.Errors.{Result, ok, spent}
use jimm.Exec.{continue, ◌>>◌}
use jimm.Exec.Rules.{run-cases}
use jimm.Exec.Batches.{batches, concat, concat-batches}
use jimm.Ofga.Tuples.{Tuple, tuple_eq}
use jimm.Ofga.Server.{Server, WriteLaws}
use jimm.Ofga.Client.{add_relation, remove_relation}
use jimm.User.{User}
use jimm.Relations.{
  RelationshipTuple, Directory, authorize_all, write_batches, write_answer, parse_tuples,
  add_relations, remove_relations, batch_size_openfga,
}

-- The tuples `ts` have been added, all of them if there is no error, and nothing else has changed.
pub record Added (V : Server) (ts before : List Tuple) (r : Result (Unit {0}) × V.State)
    : Type 0 where
  pub ended : r.0 ≢ spent
  pub all : r.0 ≡ ok tt → (t : Tuple) → elem t (V.tuples r.1) ≡ (elem t before || elem t ts)
  pub kept : (t : Tuple) → elem t before ≡ true → elem t (V.tuples r.1) ≡ true
  pub only : (t : Tuple) → elem t (V.tuples r.1) ≡ true → (elem t before || elem t ts) ≡ true

-- They have been taken away, all of them if there is no error, and nothing else has changed.
pub record TakenAway (V : Server) (ts before : List Tuple) (r : Result (Unit {0}) × V.State)
    : Type 0 where
  pub ended : r.0 ≢ spent
  pub all : r.0 ≡ ok tt → (t : Tuple) → elem t (V.tuples r.1) ≡ (elem t before && not (elem t ts))
  pub kept : (t : Tuple) → elem t before ≡ true → elem t ts ≡ false → elem t (V.tuples r.1) ≡ true
  pub only : (t : Tuple) → elem t (V.tuples r.1) ≡ true → elem t before ≡ true

module _ (V : Server) (W : WriteLaws V) where
  Added-batches :
      (bs : List (List Tuple)) (s : V.State)
      → Added V (concat bs) (V.tuples s) (write_batches V (add_relation V) bs s)
  unfolding write_batches add_relation write_answer
  Added-batches [] s = record {
    ended = λ z. cc;
    all = λ z t. ground arith;
    kept = λ t m. m;
    only = λ t m. ground (arith, m);
  }
  Added-batches (b ∷ bs) s =
      run-cases
        (λ q.
          Added V (b ++ concat bs) (V.tuples s)
            ((write_answer V q.0 >> write_batches V (add_relation V) bs) q.1))
        (V.add_relation_idempotent b) s
        (λ a s1 e.
          let rest = Added-batches bs s1 in
          let now = W.added b s s1 e in
          record {
            ended = rest.ended;
            all = λ z t. rest.all z t ∙ ground (arith, now t, elem-append t b (concat bs));
            kept = λ t m. rest.kept t (now t ∙ ground (arith, m));
            only = λ t m. ground (arith, rest.only t m, now t, elem-append t b (concat bs));
          })
        (λ x s1 e.
          let same : V.tuples s1 ≡ V.tuples s = W.not_added b s s1 x e in
          record {
            ended = λ z. cc;
            all = λ z. absurd (cc);
            kept = λ t m. ap (elem t) same ∙ m;
            only = λ t m. ground (arith, m, ap (elem t) same);
          })
        (λ s1 e. absurd (W.add_ends b s (ap (λ r. r.0) e)))

  TakenAway-batches :
      (bs : List (List Tuple)) (s : V.State)
      → TakenAway V (concat bs) (V.tuples s) (write_batches V (remove_relation V) bs s)
  unfolding write_batches remove_relation write_answer
  TakenAway-batches [] s = record {
    ended = λ z. cc;
    all = λ z t. ground arith;
    kept = λ t m out. m;
    only = λ t m. m;
  }
  TakenAway-batches (b ∷ bs) s =
      run-cases
        (λ q.
          TakenAway V (b ++ concat bs) (V.tuples s)
            ((write_answer V q.0 >> write_batches V (remove_relation V) bs) q.1))
        (V.remove_relation_idempotent b) s
        (λ a s1 e.
          let rest = TakenAway-batches bs s1 in
          let now =
            λ (t : Tuple). ap (elem t) (W.removed b s s1 e) ∙ elem-without t b (V.tuples s) in
          record {
            ended = rest.ended;
            all = λ z t. rest.all z t ∙ ground (arith, now t, elem-append t b (concat bs));
            kept = λ t m out.
                let apart = elem-append t b (concat bs) in
                rest.kept t (now t ∙ ground (arith, m, out, apart)) (ground (arith, out, apart));
            only = λ t m. ground (arith, rest.only t m, now t);
          })
        (λ x s1 e.
          let same : V.tuples s1 ≡ V.tuples s = W.not_removed b s s1 x e in
          record {
            ended = λ z. cc;
            all = λ z. absurd (cc);
            kept = λ t m out. ap (elem t) same ∙ m;
            only = λ t m. ap (elem t) (sym same) ∙ m;
          })
        (λ s1 e. absurd (W.remove_ends b s (ap (λ r. r.0) e)))

module _ (V : Server) (W : WriteLaws V) (D : Directory V) (user : User)
    (tuples : List RelationshipTuple) (ts : List Tuple) (s s1 s2 : V.State)
    (parsed : parse_tuples V D tuples s ≡ (ok ts, s1))
    (allowed : authorize_all V user ts s1 ≡ (ok tt, s2)) where
  -- For a request whose names are resolved and whose tuples are all authorized: AddRelation ends. Without
  -- an error what is stored then is what was stored before the first write and the tuples of the
  -- request, however many batches that took; after an error what was stored still is, and nothing
  -- is that was not asked for.
  pub add_relations_exact : Added V ts (V.tuples s2) (add_relations V D user tuples s)
  unfolding add_relations
  add_relations_exact =
      let all_in = concat-batches (length ts) batch_size_openfga ts (omega arith) (omega arith) in
      rw (parsed, continue, allowed)
        (subst
          (λ xs.
            Added V xs (V.tuples s2)
              (write_batches V (add_relation V) (batches (length ts) batch_size_openfga ts) s2))
          all_in (Added-batches V W (batches (length ts) batch_size_openfga ts) s2))

  -- For such a request RemoveRelation ends. Without an error what is stored then is what was stored
  -- before the first write less the tuples of the request; after an error nothing else has gone and nothing is new.
  pub remove_relations_exact : TakenAway V ts (V.tuples s2) (remove_relations V D user tuples s)
  unfolding remove_relations
  remove_relations_exact =
      let all_in = concat-batches (length ts) batch_size_openfga ts (omega arith) (omega arith) in
      rw (parsed, continue, allowed)
        (subst
          (λ xs.
            TakenAway V xs (V.tuples s2)
              (write_batches V (remove_relation V) (batches (length ts) batch_size_openfga ts) s2))
          all_in (TakenAway-batches V W (batches (length ts) batch_size_openfga ts) s2))
