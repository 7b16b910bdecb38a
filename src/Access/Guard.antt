-- ===== src/Access/Guard.antt =====
-- Who may grant and revoke access: the administrators of the cloud or model, and nobody else.
use jimm.Prelude.{◌≡◌, ◌≢◌, refl, sym, ap, ◌∙◌, String, Bool, true, false, List, ℕ, false≢true}
use jimm.Errors.{Result, ok, err, spent}
use jimm.Exec.{Exec, lift, ◌>>=◌, ◌>>◌}
use jimm.Exec.Rules.{>>=-cases}
use jimm.Ofga.Names.{JujuTag, administrator_relation}
use jimm.Ofga.Tuples.{Tuple}
use jimm.Ofga.Server.{Server, CheckLaws}
use jimm.User.{User, user_tuple, contextual_tuples, user_check}
use jimm.User.Levels.{user_check_keeps, user_check_answer}
use jimm.Access.{
  Manager, require, grant_cloud_access, revoke_cloud_access, grant_model_access,
  revoke_model_access,
}

-- A request that did not succeed and changed no tuple.
pub record Denied (V : Server) (before : List Tuple) (r : Result (Unit {0}) × V.State)
    : Type 0 where
  pub refused : r.0 ≢ ok tt
  pub unchanged : V.tuples r.1 ≡ before

module _ (V : Server) (C : CheckLaws V) (user : User) (resource : JujuTag) (s : V.State)
    (stranger : (ctx : List Tuple)
      → contextual_tuples user ≡ ok ctx
      → V.allowed (V.tuples s) ctx (user_tuple user resource administrator_relation) ≡ false) where
  guarded :
      (p : Result String) (rest : String → Exec V.State (Unit {0}))
      → Denied V (V.tuples s) (
          (lift p >>= λ target. user_check V user resource administrator_relation >>= λ admin.
          require V admin >> rest target)
            s)
  guarded (err e) rest = record { refused = λ z. cc; unchanged = refl }
  guarded spent rest = record { refused = λ z. cc; unchanged = refl }
  guarded (ok target) rest =
      let keeps =
        λ (r : Result Bool) (s1 : V.State)
            (e : user_check V user resource administrator_relation s ≡ (r, s1)).
          ap (λ q. V.tuples q.1) (sym e)
          ∙ user_check_keeps V C user resource administrator_relation s in
      >>=-cases (Denied V (V.tuples s)) (user_check V user resource administrator_relation) _ s
        (λ b s1 e.
          elim b
              as (λ b.
                user_check V user resource administrator_relation s ≡ (ok b, s1)
                → Denied V (V.tuples s) ((require V b >> rest target) s1)) [
                  | true ↦ λ e1.
                      let (ctx, valid, answer) =
                        user_check_answer V C user resource administrator_relation s s1 true e1 in
                      absurd (false≢true (sym (stranger ctx valid) ∙ sym answer))
                  | false ↦ λ e1. record { refused = λ z. cc; unchanged = keeps (ok false) s1 e1 }
                ]
            e)
        (λ x s1 e. record { refused = λ z. cc; unchanged = keeps (err x) s1 e })
        (λ s1 e. record { refused = λ z. cc; unchanged = keeps spent s1 e })

  -- Where the authorization model does not make the caller an administrator of the cloud or model,
  -- none of the four requests succeeds, whatever fails, and none of them changes a tuple.
  pub access-Denied :
      (M : Manager V) (fuel : ℕ) (target_name access : String)
      → Denied V (V.tuples s) (grant_cloud_access V M user resource target_name access s)
        × Denied V (V.tuples s) (revoke_cloud_access V M fuel user resource target_name access s)
        × Denied V (V.tuples s) (grant_model_access V M user resource target_name access s)
        × Denied V (V.tuples s) (revoke_model_access V M fuel user resource target_name access s)
  unfolding grant_cloud_access revoke_cloud_access grant_model_access revoke_model_access
  access-Denied M fuel target_name access = (guarded _ _, guarded _ _, guarded _ _, guarded _ _)
