-- ===== src/Ofga/Memory/Batches.antt =====
-- The server in memory answers each item of a batch.
use jimm.Prelude.{
  ◌≡◌, refl, sym, ap, ◌∙◌, subst, String, Bool, false, none, List, [], ◌∷◌, map, arith, elem, All,
  find, string_eq, ◌==◌, eq_iff, ==_refl, Bool-cases, false≢true, inl, inr,
}
use jimm.Ofga.Tuples.{Tuple}
use jimm.Ofga.Server.{CheckItem, ids, NoRepeat, Answers, BatchLaws}
use jimm.Ofga.Batch.{Answers-kept}
use jimm.Ofga.Memory.{memory, memory_allowed}

abbrev answers : List Tuple → List CheckItem → List (String × Bool)
answers stored =
    map (λ (c : CheckItem). (c.correlation_id, memory_allowed stored c.contextual c.tuple))

answers-none :
    (stored : List Tuple) (items : List CheckItem) (id : String)
    → elem id (ids items) ≡ false
    → find id (answers stored items) ≡ none
unfolding find
answers-none stored [] id h = refl
answers-none stored (c ∷ cs) id h = elim (Bool-cases (c.correlation_id == id)) [
  | inl same ↦ absurd (
      ground (arith, h, (eq_iff id c.correlation_id).1 (sym ((eq_iff c.correlation_id id).0 same))))
  | inr other ↦ ground (arith, other, answers-none stored cs id (ground (arith, h)))
]

answers-all :
    (stored : List Tuple) (items : List CheckItem)
    → NoRepeat (ids items)
    → All (Answers memory stored (answers stored items)) items
unfolding find
answers-all stored [] h = tt
answers-all stored (c ∷ cs) h = (
  ground (arith, ==_refl c.correlation_id),
  Answers-kept memory stored (answers stored cs) (answers stored (c ∷ cs)) cs
      (answers-all stored cs h.1)
      (λ id m. elim (Bool-cases (c.correlation_id == id)) [
        | inl same ↦ absurd (
            false≢true
              (sym h.0 ∙ ap (λ x. elem x (ids cs)) ((eq_iff c.correlation_id id).0 same) ∙ m))
        | inr other ↦ ground (arith, other)
      ]),
)

pub memory_batches : BatchLaws memory
memory_batches = record {
  batch_keeps = λ items s. refl;
  batch_answers = λ items s s' results e d.
      subst (λ r. All (Answers memory s r) items) (ground (arith, ap (λ q. q.0) e))
        (answers-all s items d);
  batch_others = λ items s s' results id e m.
      subst (λ r. find id r ≡ none) (ground (arith, ap (λ q. q.0) e)) (answers-none s items id m);
}
