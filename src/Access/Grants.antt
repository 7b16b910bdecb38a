-- ===== src/Access/Grants.antt =====
-- GrantCloudAccess and GrantModelAccess as a whole.
use jimm.Prelude.{
  ◌≡◌, refl, ap, sym, ◌∙◌, subst, String, Bool, true, false, List, [], elem, ◌==◌, Bool-cases, inl,
  inr, arith,
}
use jimm.Errors.{Error, Result, ok, err, spent}
use jimm.Ofga.Names.{JujuTag}
use jimm.Ofga.Tuples.{Tuple, tuple_eq, tuple_beq_iff}
use jimm.Ofga.Server.{Server, WriteLaws, CheckLaws}
use jimm.User.{User, new_user, user_tuple, get_model_access, get_cloud_access, set_access, wrapping}
use jimm.User.Levels.{Available, levels, model_levels, cloud_levels}
use jimm.User.Set.{SetDone, wrapped-SetDone, set_access-SetDone}
use jimm.Access.{
  Manager, set_if, model_grant_needed, cloud_grant_needed, grant_cloud_access, grant_model_access,
}
use jimm.Access.Words.{to_model_relation, to_cloud_relation}
use jimm.Access.Effect.{ManagerLaws, Hierarchy, Granted}
use jimm.Access.Needs.{
  model_grant_needed_not, cloud_grant_needed_not, up_to_implies, cloud_up_to_implies,
}
use jimm.Access.Steps.{level_among, request-cases}

module _ (V : Server) (W : WriteLaws V) (C : CheckLaws V) (u : User) (resource : JujuTag)
    (target : String) (before : List Tuple) where
  refused-Granted :
      (e : Error) (s : V.State)
      → V.tuples s ≡ before
      → Granted V u resource target before (err e, s)
  refused-Granted e s same = record {
    ended = λ z. cc;
    allows = λ z. absurd (cc);
    kept = λ t m. ap (elem t) same ∙ m;
    only = λ t other m. ap (elem t) (sym same) ∙ m;
  }

  set-Granted :
      (r : Result (Unit {0})) (s : V.State)
      → SetDone V (user_tuple u resource target) before (r, s)
      → Granted V u resource target before (r, s)
  set-Granted (ok a) s h =
      let w = user_tuple u resource target in
      record {
        ended = h.ended;
        allows = λ z.
            C.direct (V.tuples s) [] w
              (h.stored refl w ∙ ground (arith, (tuple_beq_iff w w).1 refl));
        kept = λ t m. h.stored refl t ∙ ground (arith, m);
        only = λ t other m. elim (Bool-cases (t == w)) [
          | inl same ↦ absurd (other ((tuple_beq_iff t w).0 same))
          | inr apart ↦ ground (arith, h.stored refl t, m, apart)
        ];
      }
  set-Granted (err e) s h = refused-Granted e s (h.kept e refl)
  set-Granted spent s h = absurd (h.ended refl)

  set_if-Granted :
      (b : Bool) (context : String) (s : V.State)
      → V.tuples s ≡ before
      → (b ≡ false → V.allowed before [] (user_tuple u resource target) ≡ true)
      → Granted V u resource target before (set_if V b context u resource target s)
  unfolding wrapping
  set_if-Granted true context s same h = set-Granted _ _ (
      wrapped-SetDone V context (user_tuple u resource target) before _ _ (
        subst (λ ts. SetDone V (user_tuple u resource target) ts (set_access V u resource target s))
          same (set_access-SetDone V W u resource target s)))
  set_if-Granted false context s same h = record {
    ended = λ z. cc;
    allows = λ z. ap (λ ts. V.allowed ts [] (user_tuple u resource target)) same ∙ h refl;
    kept = λ t m. ap (elem t) same ∙ m;
    only = λ t other m. ap (elem t) (sym same) ∙ m;
  }

module _ (V : Server) (W : WriteLaws V) (C : CheckLaws V) (H : Hierarchy V) (up : Available V)
    (M : Manager V) (L : ManagerLaws V M) (user : User) (resource : JujuTag) (target_name : String)
    (s : V.State) (access target : String) where
  abbrev u : User
  u = new_user target_name

  abbrev granted : String → Bool
  granted l = V.allowed (V.tuples s) [] (user_tuple u resource l)

  -- For a word that names a level on models, where the authorization model has a level imply those
  -- below and no check fails: GrantModelAccess ends. Without an error the target user then has the
  -- level. In every case what was stored stays, and at most the one tuple of the grant is new.
  pub grant_model_exact :
      to_model_relation access ≡ ok target
      → Granted V
          (new_user target_name)
          resource
          target
          (V.tuples s)
          (grant_model_access V M user resource target_name access s)
  unfolding grant_model_access get_model_access levels
  grant_model_exact e =
      let level : String = level_among V C up M L user resource target_name s model_levels in
      let P = Granted V u resource target (V.tuples s) in
      let ctx : String = "failed to set model access" in
      rw e (
        request-cases V C up M L user resource target_name s P (ok target) model_levels
          (λ t current. set_if V (model_grant_needed t current) ctx u resource t) (λ z. cc)
          (refused-Granted V W C u resource target (V.tuples s))
          (λ t s1 p same.
            let q : target ≡ t = ground arith in
            subst (λ t. P (set_if V (model_grant_needed t level) ctx u resource t s1)) q
              (set_if-Granted V W C u resource target (V.tuples s) (model_grant_needed target level)
                ctx s1 same
                (λ n.
                  let (l, m, k) = model_grant_needed_not granted access target e n in
                  up_to_implies granted access target l e
                    (H.admins_write (V.tuples s) [] u resource)
                    (H.writers_read (V.tuples s) [] u resource) m k))))

  -- For a word that names a level on clouds, where the authorization model has administrators add
  -- models and no check fails: GrantCloudAccess ends. Without an error the target user then has the
  -- level. In every case what was stored stays, and at most the one tuple of the grant is new.
  pub grant_cloud_exact :
      to_cloud_relation access ≡ ok target
      → Granted V
          (new_user target_name)
          resource
          target
          (V.tuples s)
          (grant_cloud_access V M user resource target_name access s)
  unfolding grant_cloud_access get_cloud_access levels
  grant_cloud_exact e =
      let level : String = level_among V C up M L user resource target_name s cloud_levels in
      let P = Granted V u resource target (V.tuples s) in
      let ctx : String = "failed to set cloud access" in
      rw e (
        request-cases V C up M L user resource target_name s P (ok target) cloud_levels
          (λ t current. set_if V (cloud_grant_needed t current) ctx u resource t) (λ z. cc)
          (refused-Granted V W C u resource target (V.tuples s))
          (λ t s1 p same.
            let q : target ≡ t = ground arith in
            subst (λ t. P (set_if V (cloud_grant_needed t level) ctx u resource t s1)) q
              (set_if-Granted V W C u resource target (V.tuples s) (cloud_grant_needed target level)
                ctx s1 same
                (λ n.
                  let (l, m, k) = cloud_grant_needed_not granted access target e n in
                  cloud_up_to_implies granted access target l e
                    (H.admins_add_models (V.tuples s) [] u resource) m k))))
