-- ===== src/Ofga/Batch.antt =====
-- OFGAClient.BatchCheckRelations: the checks in batches of fifty give each item its own answer.
use mathlib.Core.List.{map-append}
use jimm.Prelude.{
  ◌≡◌, refl, sym, ap, ◌∙◌, subst, String, Bool, true, false, none, List, [], ◌∷◌, ◌++◌, arith, elem,
  elem-append, All, length, find, find-append, or_else, string_eq, ◌==◌, ◌||◌, eq_iff, Bool-cases,
  inl, inr,
}
use jimm.Errors.{ok}
use jimm.Exec.Batches.{batches, concat, concat-batches}
use jimm.Exec.Rules.{>>=-eq-ok}
use jimm.Ofga.Tuples.{Tuple}
use jimm.Ofga.Server.{Server, CheckItem, ids, NoRepeat, Answers, BatchLaws}
use jimm.Ofga.Client.{check_batches, batch_check_relations, batch_check_size}

NoRepeat-append :
    (xs ys : List String)
    → NoRepeat (xs ++ ys)
    → NoRepeat xs × NoRepeat ys × ((x : String) → elem x xs ≡ true → elem x ys ≡ false)
NoRepeat-append [] ys h = (tt, h, λ x m. absurd (cc m))
NoRepeat-append (x ∷ xs) ys h =
    let (l, r, apart) = NoRepeat-append xs ys h.1 in
    (
      (ground (arith, elem-append x xs ys, h.0), l),
      r,
      λ y m. elim (Bool-cases (y == x)) [
        | inl same ↦
            ap (λ z. elem z ys) ((eq_iff y x).0 same) ∙ ground (arith, elem-append x xs ys, h.0)
        | inr other ↦ apart y (ground (arith, m, other))
      ],
    )

-- Later answers to other ids leave an item's answer.
pub Answers-kept :
    (V : Server) (stored : List Tuple) (old new : List (String × Bool)) (b : List CheckItem)
    → All (Answers V stored old) b
    → ((id : String) → elem id (ids b) ≡ true → find id new ≡ find id old)
    → All (Answers V stored new) b
Answers-kept V stored old new [] h k = tt
Answers-kept V stored old new (c ∷ b) h k = (
  k c.correlation_id (ground (arith, (eq_iff c.correlation_id c.correlation_id).1 refl)) ∙ h.0,
  Answers-kept V stored old new b h.1 (λ id m. k id (ground (arith, m))),
)

All-append_both :
    (P : CheckItem → Type 0) (xs ys : List CheckItem) → All P xs → All P ys → All P (xs ++ ys)
All-append_both P [] ys hx hy = hy
All-append_both P (x ∷ xs) ys hx hy = (hx.0, All-append_both P xs ys hx.1 hy)

Answers-append :
    (V : Server) (stored : List Tuple) (old new : List (String × Bool)) (b : List CheckItem)
    → All (Answers V stored new) b
    → All (Answers V stored (new ++ old)) b
Answers-append V stored old new [] h = tt
Answers-append V stored old new (c ∷ b) h = (
  find-append c.correlation_id new old ∙ ap (λ o. or_else o (find c.correlation_id old)) h.0,
  Answers-append V stored old new b h.1,
)

module _ (V : Server) (B : BatchLaws V) where
  check_batches_exact :
      (bs : List (List CheckItem)) (old : List (String × Bool)) (s s' : V.State)
      (new : List (String × Bool))
      → check_batches V bs old s ≡ (ok new, s')
      → NoRepeat (ids (concat bs))
      → All (Answers V (V.tuples s) new) (concat bs)
        × ((id : String) → elem id (ids (concat bs)) ≡ false → find id new ≡ find id old)
        × (V.tuples s' ≡ V.tuples s)
  unfolding check_batches
  check_batches_exact [] old s s' new e d = (
    tt,
    λ id m. ap (find id) (ground (arith, ap (λ r. r.0) e)),
    ap V.tuples (sym (ap (λ r. r.1) e)),
  )
  check_batches_exact (b ∷ bs) old s s' new e d =
      let (answers, s1, e1, e2) = >>=-eq-ok (V.batch_check_relations b) _ s s' new e in
      let (d1, d2, apart) =
        NoRepeat-append (ids b) (ids (concat bs))
          (subst NoRepeat (map-append (λ (c : CheckItem). c.correlation_id) b (concat bs)) d) in
      let same : V.tuples s1 ≡ V.tuples s = ap (λ r. V.tuples r.1) (sym e1) ∙ B.batch_keeps b s in
      let (rest, others, kept) = check_batches_exact bs (answers ++ old) s1 s' new e2 d2 in
      (
        All-append_both (Answers V (V.tuples s) new) b (concat bs)
            (Answers-kept V (V.tuples s) (answers ++ old) new b
              (Answers-append V (V.tuples s) old answers b (B.batch_answers b s s1 answers e1 d1))
              (λ id m. others id (apart id m)))
            (subst (λ ts. All (Answers V ts new) (concat bs)) same rest),
        λ id m.
            let both : (elem id (ids b) || elem id (ids (concat bs))) ≡ false =
              sym (elem-append id (ids b) (ids (concat bs)))
              ∙ ap (elem id) (sym (map-append (λ (c : CheckItem). c.correlation_id) b (concat bs)))
              ∙ m in
            others id (ground (arith, both))
            ∙ find-append id answers old
            ∙ ap (λ o. or_else o (find id old))
                (B.batch_others b s s1 answers id e1 (ground (arith, both))),
        kept ∙ same,
      )

  -- For items whose correlation ids differ, however many batches they take: the map that
  -- BatchCheckRelations returns gives each item the decision of the authorization model for its tuple
  -- and contextual tuples, as a check of that item alone does; other ids have no entry.
  pub batch_check_relations_exact :
      (items : List CheckItem) (s s' : V.State) (results : List (String × Bool))
      → batch_check_relations V items s ≡ (ok results, s')
      → NoRepeat (ids items)
      → All (Answers V (V.tuples s) results) items
        × ((id : String) → elem id (ids items) ≡ false → find id results ≡ none)
        × (V.tuples s' ≡ V.tuples s)
  unfolding batch_check_relations find
  batch_check_relations_exact items s s' results e d =
      let whole : concat (batches (length items) batch_check_size items) ≡ items =
        concat-batches (length items) batch_check_size items (omega arith) (omega arith) in
      let (a, o, k) =
        check_batches_exact (batches (length items) batch_check_size items) [] s s' results e
          (subst (λ x. NoRepeat (ids x)) (sym whole) d) in
      (
        subst (All (Answers V (V.tuples s) results)) whole a,
        λ id m. o id (ap (λ x. elem id (ids x)) whole ∙ m),
        k,
      )
