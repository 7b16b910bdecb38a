-- ===== src/Access/Revocations.antt =====
-- RevokeCloudAccess and RevokeModelAccess as a whole.
use jimm.Prelude.{◌<◌, ℕ, suc, ◌≡◌, subst, String, [], length, arith}
use jimm.Errors.{ok}
use jimm.Ofga.Names.{JujuTag}
use jimm.Ofga.Tuples.{tuple_eq}
use jimm.Ofga.Server.{Server, ReadLaws, WriteLaws, CheckLaws}
use jimm.User.{User, new_user, user_tuple, get_model_access, get_cloud_access}
use jimm.User.Levels.{Available, levels, model_levels, cloud_levels}
use jimm.Access.{
  Manager, unset_cloud, downgrade_model, model_revocation, cloud_revocation, revoke_cloud_access,
  revoke_model_access,
}
use jimm.Access.Words.{to_model_relation, to_cloud_relation}
use jimm.Access.Effect.{ManagerLaws, Revoked, up_to}
use jimm.Access.Cases.{model_revocation-Revokes, cloud_revocation-Revokes}
use jimm.Access.Steps.{level_among, request-cases}
use jimm.Access.Revoke.{failed, unset_cloud-Revoked, downgrade_model-Revoked}

module _ (V : Server) (R : ReadLaws V) (W : WriteLaws V) (C : CheckLaws V) (up : Available V)
    (M : Manager V) (L : ManagerLaws V M) (fuel : ℕ) (user : User) (resource : JujuTag)
    (target_name : String) (s : V.State) (enough : suc (length (V.tuples s)) < fuel)
    (access target : String) where
  -- For a word that names a level on models, with more rounds than there are tuples and no failing
  -- check: RevokeModelAccess ends. Without an error the target user has no stored relation to the
  -- model at that level or a higher one, and in every case all other stored tuples stay.
  pub revoke_model_exact :
      to_model_relation access ≡ ok target
      → Revoked V
          (new_user target_name)
          resource
          (up_to target model_levels)
          (V.tuples s)
          (revoke_model_access V M fuel user resource target_name access s)
  unfolding revoke_model_access get_model_access levels
  revoke_model_exact e =
      let u = new_user target_name in
      let level : String = level_among V C up M L user resource target_name s model_levels in
      let P = Revoked V u resource (up_to target model_levels) (V.tuples s) in
      rw e (
        request-cases V C up M L user resource target_name s P (ok target) model_levels
          (λ t current. downgrade_model V fuel u resource (model_revocation t current)) (λ z. cc)
          (failed V u resource (up_to target model_levels) (V.tuples s))
          (λ t s1 p same.
            let q : target ≡ t = ground arith in
            subst (λ t. P (downgrade_model V fuel u resource (model_revocation t level) s1)) q
              (downgrade_model-Revoked V R W C fuel u resource (up_to target model_levels)
                (V.tuples s) (model_revocation target level) s1
                (model_revocation-Revokes (λ l. V.allowed (V.tuples s) [] (user_tuple u resource l))
                  access target e)
                same enough)))

  -- For a word that names a level on clouds, with more rounds than there are tuples and no failing
  -- check: RevokeCloudAccess ends. Without an error the target user has no stored relation to the
  -- cloud at that level or a higher one, and in every case all other stored tuples stay.
  pub revoke_cloud_exact :
      to_cloud_relation access ≡ ok target
      → Revoked V
          (new_user target_name)
          resource
          (up_to target cloud_levels)
          (V.tuples s)
          (revoke_cloud_access V M fuel user resource target_name access s)
  unfolding revoke_cloud_access get_cloud_access levels
  revoke_cloud_exact e =
      let u = new_user target_name in
      let level : String = level_among V C up M L user resource target_name s cloud_levels in
      let P = Revoked V u resource (up_to target cloud_levels) (V.tuples s) in
      rw e (
        request-cases V C up M L user resource target_name s P (ok target) cloud_levels
          (λ t current. unset_cloud V fuel u resource (cloud_revocation t current)) (λ z. cc)
          (failed V u resource (up_to target cloud_levels) (V.tuples s))
          (λ t s1 p same.
            let q : target ≡ t = ground arith in
            subst (λ t. P (unset_cloud V fuel u resource (cloud_revocation t level) s1)) q
              (unset_cloud-Revoked V R W C fuel u resource (up_to target cloud_levels) (V.tuples s)
                (cloud_revocation target level) s1
                (cloud_revocation-Revokes (λ l. V.allowed (V.tuples s) [] (user_tuple u resource l))
                  access target e)
                same (omega (arith, enough)))))
