-- ===== src/User/Levels.antt =====
-- Which level of access the Get…Access methods report.
use jimm.Prelude.{
  ◌⊎◌, ◌≡◌, ◌≢◌, refl, sym, ap, ◌∙◌, subst, String, Bool, true, false, List, [], ◌∷◌, arith,
  if◌then◌else◌, inl, inr,
}
use jimm.Errors.{Result, ok, err, spent}
use jimm.Exec.{Exec, pure, lift, continue}
use jimm.Exec.Rules.{>>=-cases, >>=-eq-ok, run-cases}
use jimm.Ofga.Names.{
  JujuTag, administrator_relation, writer_relation, reader_relation, consumer_relation,
  can_addmodel_relation, no_relation,
}
use jimm.Ofga.Tuples.{Tuple}
use jimm.Ofga.Server.{Server, CheckLaws}
use jimm.User.{
  User, user_tuple, contextual_tuples, group_tuples, user_check, decide, level_or, get_cloud_access,
  get_controller_access, get_model_access, get_application_offer_access,
}

-- No check fails: each has the answer of the authorization model.
pub record Available (V : Server) : Type 0 where
  pub answers :
      (t : Tuple) (ctx : List Tuple) (s : V.State)
      → (V.check_relation_with_tracing t ctx s).0 ≡ ok (V.allowed (V.tuples s) ctx t)

-- The first of the levels that is held.
unfoldable pub highest : (String → Bool) → List String → String
highest holds [] = no_relation
highest holds (l ∷ ls) = let rest = highest holds ls in if holds l then l else rest

-- The checks of a Get…Access method, one level after the other.
unfoldable pub levels : (V : Server) → User → JujuTag → List String → Exec V.State String
levels V u resource [] = pure no_relation
levels V u resource (l ∷ ls) = level_or V (user_check V u resource l) l (levels V u resource ls)

module _ (V : Server) (C : CheckLaws V) (u : User) (resource : JujuTag) where
  -- What the user holds by the stored tuples and the contextual ones.
  abbrev pub holds : List Tuple → List Tuple → String → Bool
  holds stored ctx relation = V.allowed stored ctx (user_tuple u resource relation)

  pub user_check_keeps :
      (relation : String) (s : V.State)
      → V.tuples (user_check V u resource relation s).1 ≡ V.tuples s
  unfolding user_check
  user_check_keeps relation s =
      >>=-cases (λ r. V.tuples r.1 ≡ V.tuples s) (lift (contextual_tuples u)) _ s
        (λ ctx s1 e.
          C.trace_keeps (user_tuple u resource relation) ctx s1 ∙ ap (λ r. V.tuples r.1) (sym e))
        (λ x s1 e. ap (λ r. V.tuples r.1) (sym e)) (λ s1 e. ap (λ r. V.tuples r.1) (sym e))

  user_check_after :
      (relation : String) (s s' : V.State) (r : Result Bool)
      → user_check V u resource relation s ≡ (r, s')
      → V.tuples s' ≡ V.tuples s
  user_check_after relation s s' r e = ap (λ q. V.tuples q.1) (sym e) ∙ user_check_keeps relation s

  -- A check that answers has gone through valid contextual tuples to the model's decision.
  pub user_check_answer :
      (relation : String) (s s' : V.State) (b : Bool)
      → user_check V u resource relation s ≡ (ok b, s')
      → (ctx : List Tuple) × (contextual_tuples u ≡ ok ctx) × (b ≡ holds (V.tuples s) ctx relation)
  unfolding user_check
  user_check_answer relation s s' b e =
      let (ctx, s1, e1, e2) = >>=-eq-ok (lift (contextual_tuples u)) _ s s' b e in
      let same : s ≡ s1 = ap (λ r. r.1) e1 in
      (
        ctx,
        ap (λ r. r.0) e1,
        C.trace_answer (user_tuple u resource relation) ctx s1 s' b e2
            ∙ ap (λ z. V.allowed (V.tuples z) ctx (user_tuple u resource relation)) (sym same),
      )

  -- A level that is reported is held.
  abbrev Held : List Tuple → String → Type 0
  Held stored l = (ctx : List Tuple) × (contextual_tuples u ≡ ok ctx) × (holds stored ctx l ≡ true)

  pub levels_sound :
      (ls : List String) (s s' : V.State) (l : String)
      → levels V u resource ls s ≡ (ok l, s')
      → l ≢ no_relation
      → Held (V.tuples s) l
  unfolding levels
  levels_sound [] s s' l e h = absurd (h (ground arith))
  levels_sound (x ∷ ls) s s' l e h =
      run-cases
        (λ r. decide V x (levels V u resource ls) r.0 r.1 ≡ (ok l, s') → Held (V.tuples s) l)
        (user_check V u resource x) s
        (λ b s1.
          elim b
            as (λ b.
              user_check V u resource x s ≡ (ok b, s1)
              → decide V x (levels V u resource ls) (ok b) s1 ≡ (ok l, s')
              → Held (V.tuples s) l) [
                | true ↦ λ e1 e2.
                    let (ctx, c, answer) = user_check_answer x s s1 true e1 in
                    let same : x ≡ l = ground arith in
                    (ctx, c, ap (holds (V.tuples s) ctx) (sym same) ∙ sym answer)
                | false ↦ λ e1 e2.
                    subst (λ ts. Held ts l) (user_check_after x s s1 (ok false) e1)
                      (levels_sound ls s1 s' l e2 h)
              ])
        (λ x s1 e1 e2. absurd (h (ground arith))) (λ s1 e1 e2. absurd (cc (ap (λ r. r.0) e2))) e

  pub levels_keeps :
      (ls : List String) (s : V.State) → V.tuples (levels V u resource ls s).1 ≡ V.tuples s
  unfolding levels
  levels_keeps [] s = refl
  levels_keeps (x ∷ ls) s =
      run-cases (λ r. V.tuples (decide V x (levels V u resource ls) r.0 r.1).1 ≡ V.tuples s)
        (user_check V u resource x) s
        (λ b s1 e.
          let same : V.tuples s1 ≡ V.tuples s = user_check_after x s s1 (ok b) e in
          elim b as (λ b. V.tuples (decide V x (levels V u resource ls) (ok b) s1).1 ≡ V.tuples s) [
            | true ↦ same
            | false ↦ levels_keeps ls s1 ∙ same
          ])
        (λ x' s1 e. user_check_after x s s1 (err x') e) (λ s1 e. user_check_after x s s1 spent e)

  group_tuples_ends : (groups : List String) → group_tuples u groups ≢ spent
  unfolding group_tuples
  group_tuples_ends [] = λ z. cc
  group_tuples_ends (g ∷ groups) = λ z. group_tuples_ends groups (ground (arith, z))

  -- A check ends where no check of the server fails.
  pub user_check_ends :
      Available V
      → (relation : String) (s : V.State) → (user_check V u resource relation s).0 ≢ spent
  unfolding user_check contextual_tuples
  user_check_ends up relation s =
      >>=-cases (λ r. r.0 ≢ spent) (lift (contextual_tuples u)) _ s
        (λ ctx s1 e z. absurd (cc (sym (up.answers (user_tuple u resource relation) ctx s1) ∙ z)))
        (λ x s1 e z. cc)
        (λ s1 e. absurd (group_tuples_ends u.idp_group_ids (ground (arith, ap (λ r. r.0) e))))

  -- With no failing check the report is the highest level that is held.
  module _ (up : Available V) (ctx : List Tuple) (valid : contextual_tuples u ≡ ok ctx) where
    user_check-answers :
        (relation : String) (s : V.State)
        → (user_check V u resource relation s).0 ≡ ok (holds (V.tuples s) ctx relation)
    unfolding user_check
    user_check-answers relation s =
        rw (valid, continue) (up.answers (user_tuple u resource relation) ctx s)

    pub levels-highest :
        (ls : List String) (s : V.State)
        → (levels V u resource ls s).0 ≡ ok (highest (holds (V.tuples s) ctx) ls)
    unfolding levels highest
    levels-highest [] s = refl
    levels-highest (x ∷ ls) s =
        let top : Bool = holds (V.tuples s) ctx x in
        let s1 : V.State = (user_check V u resource x s).1 in
        let below : (levels V u resource ls s1).0 ≡ ok (highest (holds (V.tuples s) ctx) ls) =
          levels-highest ls s1 ∙ ap (λ ts. ok (highest (holds ts ctx) ls)) (user_check_keeps x s) in
        ap (λ r. (decide V x (levels V u resource ls) r s1).0) (user_check-answers x s)
        ∙ (elim top
            as (λ b.
              (decide V x (levels V u resource ls) (ok b) s1).0
              ≡ ok (if b then x else highest (holds (V.tuples s) ctx) ls)) [
                | true ↦ refl
                | false ↦ below
              ])

abbrev pub model_levels : List String
model_levels = administrator_relation ∷ writer_relation ∷ reader_relation ∷ []

abbrev pub offer_levels : List String
offer_levels = administrator_relation ∷ consumer_relation ∷ reader_relation ∷ []

abbrev pub cloud_levels : List String
cloud_levels = administrator_relation ∷ can_addmodel_relation ∷ []

-- The four methods are such sequences of checks.
pub access-levels :
    (V : Server) (u : User) (resource : JujuTag)
    → (get_model_access V u resource ≡ levels V u resource model_levels)
      × (get_application_offer_access V u resource ≡ levels V u resource offer_levels)
      × (get_cloud_access V u resource ≡ levels V u resource cloud_levels)
      × (get_controller_access V u resource ≡ levels V u resource (administrator_relation ∷ []))
unfolding get_model_access get_application_offer_access get_cloud_access get_controller_access
    levels
access-levels V u resource = (refl, refl, refl, refl)

module _ (V : Server) (C : CheckLaws V) (u : User) (resource : JujuTag) where
  -- Whatever fails on the way, a level that a method reports (not the empty one) is a relation that
  -- the authorization model grants the user, with contextual tuples that are valid.
  pub access_sound :
      (s s' : V.State) (l : String)
      → (get_model_access V u resource s ≡ (ok l, s'))
        ⊎ (get_application_offer_access V u resource s ≡ (ok l, s'))
        ⊎ (get_cloud_access V u resource s ≡ (ok l, s'))
        ⊎ (get_controller_access V u resource s ≡ (ok l, s'))
      → l ≢ no_relation
      → (ctx : List Tuple) × (contextual_tuples u ≡ ok ctx)
        × (V.allowed (V.tuples s) ctx (user_tuple u resource l) ≡ true)
  access_sound s s' l (inl e) h =
      levels_sound V C u resource model_levels s s' l
        (ap (λ m. m s) (sym (access-levels V u resource).0) ∙ e) h
  access_sound s s' l (inr (inl e)) h =
      levels_sound V C u resource offer_levels s s' l
        (ap (λ m. m s) (sym (access-levels V u resource).1) ∙ e) h
  access_sound s s' l (inr (inr (inl e))) h =
      levels_sound V C u resource cloud_levels s s' l
        (ap (λ m. m s) (sym (access-levels V u resource).2) ∙ e) h
  access_sound s s' l (inr (inr (inr e))) h =
      levels_sound V C u resource (administrator_relation ∷ []) s s' l
        (ap (λ m. m s) (sym (access-levels V u resource).3) ∙ e) h

  -- With valid contextual tuples and no failing check the four methods report the highest relation
  -- of their list that the authorization model grants the user, and the empty one if there is none.
  pub access_highest :
      (s : V.State) (ctx : List Tuple)
      → Available V
      → contextual_tuples u ≡ ok ctx
      → let held = λ (l : String). V.allowed (V.tuples s) ctx (user_tuple u resource l) in
        ((get_model_access V u resource s).0 ≡ ok (highest held model_levels))
        × ((get_application_offer_access V u resource s).0 ≡ ok (highest held offer_levels))
        × ((get_cloud_access V u resource s).0 ≡ ok (highest held cloud_levels))
        × ((get_controller_access V u resource s).0
            ≡ ok (highest held (administrator_relation ∷ [])))
  access_highest s ctx up valid =
      let same = access-levels V u resource in
      let found = λ (ls : List String). levels-highest V C u resource up ctx valid ls s in
      (
        ap (λ m. (m s).0) same.0 ∙ found model_levels,
        ap (λ m. (m s).0) same.1 ∙ found offer_levels,
        ap (λ m. (m s).0) same.2 ∙ found cloud_levels,
        ap (λ m. (m s).0) same.3 ∙ found (administrator_relation ∷ []),
      )
