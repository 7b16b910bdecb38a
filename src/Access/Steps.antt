-- ===== src/Access/Steps.antt =====
-- The course that the four requests of internal/jimm/permissions/access.go on clouds and models share:
-- the access word, the caller's authorization, the target identity, its level, and then the change.
use jimm.Prelude.{◌≡◌, ◌≢◌, refl, sym, ap, ◌∙◌, subst, String, true, false, List, []}
use jimm.Errors.{Error, Result, ok, err, spent}
use jimm.Exec.{Exec, lift, continue, ◌>>=◌, ◌>>◌}
use jimm.Exec.Rules.{>>=-cases}
use jimm.Ofga.Names.{JujuTag, administrator_relation}
use jimm.Ofga.Server.{Server, CheckLaws}
use jimm.User.{User, new_user, user_tuple, contextual_tuples, user_check}
use jimm.User.Levels.{
  Available, highest, levels, levels-highest, levels_keeps, user_check_keeps, user_check_ends,
}
use jimm.Access.{Manager, require}
use jimm.Access.Effect.{ManagerLaws}

module _ (V : Server) (C : CheckLaws V) (up : Available V) (M : Manager V) (L : ManagerLaws V M)
    (user : User) (resource : JujuTag) (target_name : String) (s : V.State) where
  -- The level that the target user has among `ls`.
  abbrev pub level_among : List String → String
  level_among =
      highest (λ l. V.allowed (V.tuples s) [] (user_tuple (new_user target_name) resource l))

  -- What holds after a failure that changed nothing, and after the change wherever it starts from the
  -- same tuples, holds after the request.
  pub request-cases :
      (P : Result (Unit {0}) × V.State → Type 0) (p : Result String) (ls : List String)
      (change : String → String → Exec V.State (Unit {0}))
      → p ≢ spent
      → ((e : Error) (s1 : V.State) → V.tuples s1 ≡ V.tuples s → P (err e, s1))
      → ((target : String) (s1 : V.State)
          → p ≡ ok target
          → V.tuples s1 ≡ V.tuples s
          → P (change target (level_among ls) s1))
      → P (
          (lift p >>= λ target. user_check V user resource administrator_relation >>= λ admin.
          require V admin
          >> (M.get_identity target_name
              >> (levels V (new_user target_name) resource ls >>= change target)))
            s)
  unfolding contextual_tuples
  request-cases P (err e) ls change ends bad good = bad e s refl
  request-cases P spent ls change ends bad good = absurd (ends refl)
  request-cases P (ok target) ls change ends bad good =
      >>=-cases P (user_check V user resource administrator_relation) _ s
        (λ b s1 e.
          let kept : V.tuples s1 ≡ V.tuples s =
            ap (λ q. V.tuples q.1) (sym e)
            ∙ user_check_keeps V C user resource administrator_relation s in
          elim b
            as (λ b. P (
              (require V b
                  >> (M.get_identity target_name
                      >> (levels V (new_user target_name) resource ls >>= change target)))
                s1)) [ true ↦ looked_up s1 kept | false ↦ bad _ s1 kept ])
        (λ x s1 e. bad x s1 (
          ap (λ q. V.tuples q.1) (sym e)
          ∙ user_check_keeps V C user resource administrator_relation s))
        (λ s1 e.
          absurd (user_check_ends V C user resource up administrator_relation s (ap (λ r. r.0) e)))
    where
      measured :
          (s1 : V.State)
          → V.tuples s1 ≡ V.tuples s
          → P ((levels V (new_user target_name) resource ls >>= change target) s1)
      measured s1 same =
          let t = new_user target_name in
          let s2 : V.State = (levels V t resource ls s1).1 in
          let r : (levels V t resource ls s1).0 ≡ ok (level_among ls) =
            levels-highest V C t resource up [] refl ls s1
            ∙ ap (λ ts. ok (highest (λ l. V.allowed ts [] (user_tuple t resource l)) ls)) same in
          subst (λ q. P (continue (change target) q s2)) (sym r)
            (good target s2 refl (levels_keeps V C t resource ls s1 ∙ same))

      looked_up :
          (s1 : V.State)
          → V.tuples s1 ≡ V.tuples s
          → P (
              (M.get_identity target_name
                  >> (levels V (new_user target_name) resource ls >>= change target))
                s1)
      looked_up s1 same =
          let keeps : V.tuples (M.get_identity target_name s1).1 ≡ V.tuples s1 =
            L.identity_keeps target_name s1 in
          >>=-cases P (M.get_identity target_name) _ s1
            (λ a s2 e. measured s2 (ap (λ q. V.tuples q.1) (sym e) ∙ keeps ∙ same))
            (λ x s2 e. bad x s2 (ap (λ q. V.tuples q.1) (sym e) ∙ keeps ∙ same))
            (λ s2 e. absurd (L.identity_ends target_name s1 (ap (λ r. r.0) e)))
