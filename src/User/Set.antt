-- ===== src/User/Set.antt =====
-- setResourceAccess for a user: what is stored after it.
use jimm.Prelude.{
  suc, length, ◌≤◌, ◌≡◌, ◌≢◌, refl, ap, ◌∙◌, String, Bool, true, false, ◌||◌, List, [], ◌∷◌, arith,
  Bool-cases, inl, inr, elem, ◌==◌, if◌then◌else◌,
}
use jimm.Errors.{Error, message, Result, ok, err, spent}
use jimm.Exec.Rules.{run-cases}
use jimm.Ofga.Names.{JujuTag}
use jimm.Ofga.Tuples.{Tuple, tuple_eq, tuple_beq_iff}
use jimm.Ofga.Server.{Server, WriteLaws, contains, exists_text}
use jimm.Ofga.Client.{ignoring}
use jimm.User.{User, user_tuple, wrapped, set_access}

-- How a call that sets the tuple `t` has ended: within its fuel; when it reports no error `t` is
-- stored beside what was there; when it does, nothing has changed.
pub record SetDone (V : Server) (t : Tuple) (before : List Tuple) (r : Result (Unit {0}) × V.State)
    : Type 0 where
  pub ended : r.0 ≢ spent
  pub stored : r.0 ≡ ok tt → (x : Tuple) → elem x (V.tuples r.1) ≡ (elem x before || x == t)
  pub few : length (V.tuples r.1) ≤ suc (length before)
  pub kept : (e : Error) → r.0 ≡ err e → V.tuples r.1 ≡ before

-- The message that an error is given changes nothing of that.
pub wrapped-SetDone :
    (V : Server) (context : String) (t : Tuple) (before : List Tuple) (r : Result (Unit {0}))
    (s : V.State)
    → SetDone V t before (r, s)
    → SetDone V t before (wrapped context r, s)
wrapped-SetDone V context t before (ok a) s h = h
wrapped-SetDone V context t before (err e) s h = record {
  ended = λ z. cc;
  stored = λ z. absurd (cc);
  few = h.few;
  kept = λ x z. h.kept e refl;
}
wrapped-SetDone V context t before spent s h = absurd (h.ended refl)

module _ (V : Server) (W : WriteLaws V) (u : User) (resource : JujuTag) (relation : String) where
  abbrev wanted : Tuple
  wanted = user_tuple u resource relation

  -- An error that says that the tuple is there already: it is.
  present :
      (xs : List Tuple) (x : Tuple) → elem wanted xs ≡ true → elem x xs ≡ (elem x xs || x == wanted)
  present xs x m = elim (Bool-cases (x == wanted)) [
    | inl same ↦
        let e : x ≡ wanted = (tuple_beq_iff x wanted).0 same in
        let there : elem x xs ≡ true = ap (λ y. elem y xs) e ∙ m in ground (arith, there, same)
    | inr other ↦ ground (arith, other)
  ]

  -- The call's answer for an error of the server, which it passes on unless it says that the tuple is
  -- there.
  refused :
      (b : Bool) (x : Error) (s s' : V.State)
      → V.add_relation_idempotent (wanted ∷ []) s ≡ (err x, s')
      → contains (message x) exists_text ≡ b
      → SetDone V wanted (V.tuples s) (if b then ok tt else err x, s')
  refused true x s s' e known =
      let same : V.tuples s' ≡ V.tuples s = W.not_added (wanted ∷ []) s s' x e in
      record {
        ended = λ z. cc;
        stored = λ z y.
            ap (elem y) same ∙ present (V.tuples s) y (W.exists_already wanted s s' x e known);
        few = omega (arith, ap length same);
        kept = λ y z. same;
      }
  refused false x s s' e known = record {
    ended = λ z. cc;
    stored = λ z. absurd (cc);
    few = omega (arith, ap length (W.not_added (wanted ∷ []) s s' x e));
    kept = λ y z. W.not_added (wanted ∷ []) s s' x e;
  }

  pub set_access-SetDone :
      (s : V.State) → SetDone V wanted (V.tuples s) (set_access V u resource relation s)
  unfolding set_access
  set_access-SetDone s =
      run-cases (λ r. SetDone V wanted (V.tuples s) (ignoring V exists_text r.0, r.1))
        (V.add_relation_idempotent (wanted ∷ [])) s
        (λ a s' e. record {
          ended = λ z. cc;
          stored = λ z x. W.added (wanted ∷ []) s s' e x ∙ ground arith;
          few = omega (arith, W.added_few (wanted ∷ []) s s' e);
          kept = λ x z. absurd (cc);
        })
        (λ x s' e. refused (contains (message x) exists_text) x s s' e refl)
        (λ s' e. absurd (W.add_ends (wanted ∷ []) s (ap (λ r. r.0) e)))
