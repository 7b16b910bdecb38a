-- ===== src/Ofga/Memory/Beside.antt =====
-- A server next to another state, for tests of code that also uses a database.
use jimm.Exec.{Exec}
use jimm.Ofga.Server.{Server, CheckLaws}

module _ (V : Server) (X : Type 0) where
  abbrev on_left : {A : Type 0} → Exec V.State A → Exec (V.State × X) A
  on_left m (s, x) = let (r, s') = m s in (r, (s', x))

  abbrev pub on_right : {A : Type 0} → Exec X A → Exec (V.State × X) A
  on_right m (s, x) = let (r, x') = m x in (r, (s, x'))

  abbrev pub beside : Server
  beside = record {
    State = V.State × X;
    tuples = λ s. V.tuples s.0;
    find_matching_tuples = λ p n token. on_left (V.find_matching_tuples p n token);
    pending = λ p token s. V.pending p token s.0;
    add_relation_idempotent = λ ts. on_left (V.add_relation_idempotent ts);
    remove_relation_idempotent = λ ts. on_left (V.remove_relation_idempotent ts);
    check_relation = λ t ctx. on_left (V.check_relation t ctx);
    check_relation_with_tracing = λ t ctx. on_left (V.check_relation_with_tracing t ctx);
    batch_check_relations = λ items. on_left (V.batch_check_relations items);
    find_accessible_objects = λ t ctx. on_left (V.find_accessible_objects t ctx);
    allowed = V.allowed;
  }

pub beside_checks : (V : Server) (X : Type 0) → CheckLaws V → CheckLaws (beside V X)
beside_checks V X C = record {
  check_keeps = λ t ctx s. C.check_keeps t ctx s.0;
  trace_keeps = λ t ctx s. C.trace_keeps t ctx s.0;
  check_answer = λ t ctx s s' b e. C.check_answer t ctx s.0 s'.0 b (λ i. ((e i).0, (e i).1.0));
  trace_answer = λ t ctx s s' b e. C.trace_answer t ctx s.0 s'.0 b (λ i. ((e i).0, (e i).1.0));
  direct = C.direct;
}
