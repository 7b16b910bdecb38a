-- ===== src/Ofga/Removal.antt =====
-- removeTuples: which tuples the loop deletes, and that it ends.
pub mod Pages
use mathlib.Core.List.{append-nil}
use jimm.Prelude.{
  ℕ, zero, suc, ◌<◌, ◌≤◌, ◌+◌, ◌≡◌, ◌≢◌, refl, sym, ap, ap₂, subst, false≢true, ◌∙◌, inl, inr,
  String, Bool, true, false, not, ◌&&◌, ◌||◌, List, [], ◌∷◌, ◌++◌, map, arith, length, elem,
  elem-append, select, elem-select, select_all, without, select-without, without-select,
  elem-without, length-select-without, Bool-cases, ◌==◌, eq_iff, string_eq, ==_refl,
}
use jimm.Errors.{Error, Result, ok, err, spent}
use jimm.Exec.{Exec, pure, continue, ◌>>=◌, ◌>>◌}
use jimm.Exec.Rules.{>>=-cases, >>=-eq-ok, >>=-ends, run-cases}
use jimm.Ofga.Tuples.{
  Tuple, tuple_eq, matches, is_public, public_access_adaptor, is_public-adaptor, adaptor_other,
  tuple_beq_iff,
}
use jimm.Ofga.Server.{Server, ReadLaws, WriteLaws}
use jimm.Ofga.Client.{remove_tuples, remove_page, remove_relation, read_related_objects}
use jimm.Ofga.Removal.Pages.{
  NoPublic, others, Page, elem-map_adaptor, read_page, read_page_ends, after_read, page_removed,
  page_not_removed, page_ends, read-Page, others-page, NoPublic-page, last_page, fewer,
}

-- How removeTuples has ended: within its fuel, with every other tuple in place, and if it
-- reported no error, with those alone.
pub record Removed (V : Server) (p : Tuple) (before : List Tuple) (r : Result (Unit {0}) × V.State)
    : Type 0 where
  pub ended : r.0 ≢ spent
  pub kept : others p (V.tuples r.1) ≡ others p before
  pub gone : r.0 ≡ ok tt → V.tuples r.1 ≡ others p before

-- The rest of the loop, started after a page has been removed, ends the whole.
Removed-before :
    (V : Server) (p : Tuple) (xs ys : List Tuple) (r : Result (Unit {0}) × V.State)
    → others p ys ≡ others p xs
    → Removed V p ys r
    → Removed V p xs r
Removed-before V p xs ys r same h = record {
  ended = h.ended;
  kept = h.kept ∙ same;
  gone = λ e. h.gone e ∙ same;
}

-- Before anything was removed an error leaves all in place.
Removed-err :
    (V : Server) (p : Tuple) (xs : List Tuple) (e : Error) (s : V.State)
    → others p (V.tuples s) ≡ others p xs
    → Removed V p xs (err e, s)
Removed-err V p xs e s same = record { ended = λ h. cc; kept = same; gone = λ h. absurd (cc) }

module _ (V : Server) (R : ReadLaws V) (W : WriteLaws V) (p : Tuple) where
  -- Given more rounds than there are matching tuples, none of which grants public access,
  -- removeTuples ends. It leaves every tuple that does not match in place, and when it reports no
  -- error exactly the matching ones are gone.
  pub remove_tuples_exact :
      (fuel : ℕ) (s : V.State)
      → NoPublic (select (matches p) (V.tuples s))
      → length (select (matches p) (V.tuples s)) < fuel
      → Removed V p (V.tuples s) (remove_tuples V fuel p s)
  unfolding remove_tuples
  remove_tuples_exact zero s h lt = absurd (omega arith)
  remove_tuples_exact (suc fuel) s h lt =
      >>=-cases (Removed V p (V.tuples s)) (read_related_objects V p 50 "") _ s
        (λ (ts, ct) s1 e.
          let g : Page p (V.tuples s) ts ct = read-Page V R p s s1 ts ct h e in
          let same : V.tuples s1 ≡ V.tuples s = after_read V R p 50 "" s s1 _ e in
          >>=-cases (Removed V p (V.tuples s)) (remove_page V ts) _ s1
            (λ u s2 e2.
              let left : V.tuples s2 ≡ without ts (V.tuples s) =
                page_removed V W ts s1 s2 e2 ∙ ap (without ts) same in
              let same' : others p (V.tuples s2) ≡ others p (V.tuples s) =
                ap (others p) left ∙ others-page p (V.tuples s) ts ct g in
              elim (Bool-cases (ct == "")) [
                | inl done ↦ rw done (record {
                  ended = λ x. cc;
                  kept = same';
                  gone = λ _. left ∙ last_page p (V.tuples s) ts ct g done;
                })
                | inr next ↦ rw next (
                    Removed-before V p (V.tuples s) (V.tuples s2) _ same' (
                      remove_tuples_exact fuel s2
                        (subst (λ xs. NoPublic (select (matches p) xs)) (sym left)
                          (NoPublic-page p (V.tuples s) ts ct g h))
                        (rw left (omega (arith, fewer p (V.tuples s) ts ct g next)))))
              ])
            (λ x s2 e2.
              Removed-err V p _ x s2 (ap (others p) (page_not_removed V W ts s1 s2 x e2 ∙ same)))
            (λ s2 e2. absurd (page_ends V W ts s1 (ap (λ r. r.0) e2))))
        (λ x s1 e. Removed-err V p _ x s1 (ap (others p) (after_read V R p 50 "" s s1 _ e)))
        (λ s1 e. absurd (read_page_ends V R p 50 "" s (ap (λ r. r.0) e)))

  page_keeps_public :
      (s s1 s2 : V.State) (ts : List Tuple) (ct : String) (t : Tuple)
      → is_public t ≡ true
      → read_related_objects V p 50 "" s ≡ (ok (ts, ct), s1)
      → remove_page V ts s1 ≡ (ok tt, s2)
      → elem t (V.tuples s2) ≡ elem t (V.tuples s)
  page_keeps_public s s1 s2 ts ct t h e e2 =
      let (found, _, adapted) = read_page V R p 50 "" s s1 ts ct e in
      let absent : elem t ts ≡ false = ap (elem t) adapted ∙ elem-map_adaptor t found h in
      ap (elem t) (page_removed V W ts s1 s2 e2)
      ∙ elem-without t ts (V.tuples s1)
      ∙ ap (λ b. not b && elem t (V.tuples s1)) absent
      ∙ ap (elem t) (after_read V R p 50 "" s s1 _ e)

  -- A stored tuple that grants public access is still stored after removeTuples, whatever the
  -- partial tuple, the number of rounds and the result.
  pub remove_tuples_keeps_public :
      (fuel : ℕ) (s : V.State) (t : Tuple)
      → is_public t ≡ true
      → elem t (V.tuples s) ≡ true
      → elem t (V.tuples (remove_tuples V fuel p s).1) ≡ true
  unfolding remove_tuples
  remove_tuples_keeps_public zero s t h m = m
  remove_tuples_keeps_public (suc fuel) s t h m =
      >>=-cases (λ r. elem t (V.tuples r.1) ≡ true) (read_related_objects V p 50 "") _ s
        (λ (ts, ct) s1 e.
          >>=-cases (λ r. elem t (V.tuples r.1) ≡ true) (remove_page V ts) _ s1
            (λ u s2 e2.
              let stays : elem t (V.tuples s2) ≡ true =
                page_keeps_public s s1 s2 ts ct t h e e2 ∙ m in
              elim (Bool-cases (ct == "")) [
                | inl done ↦ rw done stays
                | inr next ↦ rw next (remove_tuples_keeps_public fuel s2 t h stays)
              ])
            (λ x s2 e2.
              ap (elem t) (page_not_removed V W ts s1 s2 x e2 ∙ after_read V R p 50 "" s s1 _ e)
              ∙ m)
            (λ s2 e2. absurd (page_ends V W ts s1 (ap (λ r. r.0) e2))))
        (λ x s1 e. ap (elem t) (after_read V R p 50 "" s s1 _ e) ∙ m)
        (λ s1 e. ap (elem t) (after_read V R p 50 "" s s1 _ e) ∙ m)
