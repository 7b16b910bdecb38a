-- ===== src/Tokens/Claims.antt =====
-- What a login token says of its user.
use jimm.Prelude.{
  ◌≡◌, inl, inr, refl, ap, ◌∙◌, subst, String, some, List, [], ◌∷◌, find, not, ◌==◌, string_eq,
}
use jimm.Errors.{Result, ok, err, spent}
use jimm.Exec.Triples.{Good, Keeps, Any, Good-Any, pure-Keeps, >>=-Keeps}
use jimm.Ofga.Names.{JujuTag}
use jimm.Ofga.Tuples.{Tuple}
use jimm.Ofga.Server.{Server, CheckLaws}
use jimm.User.{User, resource_tag, get_model_access, get_cloud_access, get_controller_access}
use jimm.User.Levels.{levels_keeps, access-levels, access_sound}
use jimm.Access.{Manager, get_user_model_access, get_user_controller_access, get_user_cloud_access}
use jimm.Access.Words.{to_model_access_string, to_controller_access_string, to_cloud_access_string}
use jimm.Tokens.{
  JwtParams, Session, Services, distinct, modify, claim_clouds, login_claims, issue,
  make_login_token,
}
use jimm.Tokens.Entries.{
  Worded, Entries, Truthful, Steady, steady-Keeps, wrapping-Keeps, get-Keeps, generator-Keeps,
  need-Keeps, claim-Keeps, word-Steady,
}

-- Reading controllers and signing tokens changes no tuple.
pub record ServiceLaws (V : Server) (T : Services V) : Type 0 where
  pub controller_keeps :
      (ct : JujuTag) (s : V.State) → V.tuples (T.get_controller ct s).1 ≡ V.tuples s
  pub jwt_keeps : (p : JwtParams) (s : V.State) → V.tuples (T.new_jwt p s).1 ≡ V.tuples s

module _ (V : Server) (C : CheckLaws V) (M : Manager V) (T : Services V) (L : ServiceLaws V T)
    (user : User) (stored : List Tuple) where
  -- The Get…Access methods change no tuple.
  access_keeps :
      (tag : JujuTag) (s : V.State)
      → (V.tuples (get_model_access V user tag s).1 ≡ V.tuples s)
        × (V.tuples (get_cloud_access V user tag s).1 ≡ V.tuples s)
        × (V.tuples (get_controller_access V user tag s).1 ≡ V.tuples s)
  access_keeps tag s =
      let (model, offer, cloud, controller) = access-levels V user tag in
      (
        ap (λ m. V.tuples (m s).1) model ∙ levels_keeps V C user tag _ s,
        ap (λ m. V.tuples (m s).1) cloud ∙ levels_keeps V C user tag _ s,
        ap (λ m. V.tuples (m s).1) controller ∙ levels_keeps V C user tag _ s,
      )

  model-Steady :
      (tag : JujuTag)
      → Steady V T user stored
          (get_user_model_access V M user tag)
          (Worded V T user stored to_model_access_string tag)
  unfolding get_user_model_access
  model-Steady tag =
      word-Steady V T user stored to_model_access_string tag (get_model_access V user tag)
        (λ s. (access_keeps tag s).0) (λ s s' l e. access_sound V C user tag s s' l (inl e))

  cloud-Steady :
      (tag : JujuTag)
      → Steady V T user stored
          (get_user_cloud_access V M user tag)
          (Worded V T user stored to_cloud_access_string tag)
  unfolding get_user_cloud_access
  cloud-Steady tag =
      word-Steady V T user stored to_cloud_access_string tag (get_cloud_access V user tag)
        (λ s. (access_keeps tag s).1)
        (λ s s' l e. access_sound V C user tag s s' l (inr (inr (inl e))))

  controller-Steady :
      (tag : JujuTag)
      → Steady V T user stored
          (get_user_controller_access V M user tag)
          (Worded V T user stored to_controller_access_string tag)
  unfolding get_user_controller_access
  controller-Steady tag =
      word-Steady V T user stored to_controller_access_string tag (get_controller_access V user tag)
        (λ s. (access_keeps tag s).2)
        (λ s s' l e. access_sound V C user tag s s' l (inr (inr (inr e))))

  clouds-Keeps :
      (clouds : List JujuTag)
      → Keeps (Truthful V T user stored) (claim_clouds V M T user clouds) Any
  unfolding claim_clouds
  clouds-Keeps [] = pure-Keeps tt tt
  clouds-Keeps (c ∷ cs) =
      >>=-Keeps (wrapping-Keeps V T user stored _ _ (cloud-Steady c)) (λ access w.
        >>=-Keeps (claim-Keeps V T user stored M to_cloud_access_string c access (inr (inr refl)) w)
          (λ _ _. clouds-Keeps cs))

  controller_read-Steady : (ct : JujuTag) → Steady V T user stored (T.get_controller ct) Any
  controller_read-Steady ct s p = (L.controller_keeps ct s ∙ p, Good-Any (T.get_controller ct s).0)

  login_claims-Keeps : Keeps (Truthful V T user stored) (login_claims V M T user) Any
  unfolding login_claims
  login_claims-Keeps = >>=-Keeps (get-Keeps V T user stored (λ g. g.mt)) (λ mt _.
      >>=-Keeps (need-Keeps V T user stored (not (mt.id == "")) _) (λ _ _.
        >>=-Keeps (steady-Keeps V T user stored _ (model-Steady mt)) (λ a w.
          >>=-Keeps (claim-Keeps V T user stored M to_model_access_string mt a (inl refl) w) (λ _ _.
            >>=-Keeps (get-Keeps V T user stored (λ g. g.ct)) (λ ct _.
              >>=-Keeps (need-Keeps V T user stored (not (ct.id == "")) _) (λ _ _.
                >>=-Keeps (steady-Keeps V T user stored _ (controller-Steady ct)) (λ b x.
                  >>=-Keeps
                    (claim-Keeps V T user stored M to_controller_access_string ct b (inr (inl refl))
                      x)
                    (λ _ _.
                      >>=-Keeps (wrapping-Keeps V T user stored _ _ (controller_read-Steady ct))
                        (λ clouds _. clouds-Keeps (distinct clouds))))))))))

  -- A token that was signed for such entries.
  pub record Attested (t : String) : Type 0 where
    pub params : JwtParams
    pub before : V.State
    pub signed : (T.new_jwt params before).0 ≡ ok t
    pub of_user : params.user ≡ T.tag_text (resource_tag user)
    pub entries : Entries V T user stored params.access

  jwt-Steady :
      (p : JwtParams)
      → p.user ≡ T.tag_text (resource_tag user)
      → Entries V T user stored p.access
      → Steady V T user stored (T.new_jwt p) Attested
  jwt-Steady p u h s k = (L.jwt_keeps p s ∙ k, go (T.new_jwt p s).0 refl)
    where
      go : (r : Result String) → (T.new_jwt p s).0 ≡ r → Good Attested r
      go (ok t) e = record { params = p; before = s; signed = e; of_user = u; entries = h }
      go (err x) e = tt
      go spent e = tt

  issue-Keeps : Keeps (Truthful V T user stored) (issue V M T user) Attested
  unfolding issue
  issue-Keeps =
      >>=-Keeps (generator-Keeps V T user stored)
        (λ g h. steady-Keeps V T user stored _ (jwt-Steady _ refl h))

module _ (V : Server) (C : CheckLaws V) (M : Manager V) (T : Services V) (L : ServiceLaws V T)
    (user : User) where
  -- A token that MakeLoginToken returns is one that the JWT service signed for the tag of the user and
  -- an access map each of whose entries is the word for a level on a model, controller or cloud: for
  -- none, or for one that the authorization model has the user hold; whatever the generator held.
  -- Reading controllers and signing are taken to change no tuple.
  pub login_token_claims :
      (s s' : Session V) (t : String)
      → make_login_token V M T (some user) s ≡ (ok t, s')
      → Attested V C M T L user (V.tuples s.server) t
  unfolding make_login_token modify find
  login_token_claims s s' t e =
      let stored = V.tuples s.server in
      let start : Session V = record s {
        generator = record s.generator { user = some user; access_map_cache = some [] };
      } in
      subst (Good (Attested V C M T L user stored)) (ap (λ r. r.0) e)
        ((>>=-Keeps (login_claims-Keeps V C M T L user stored)
            (λ _ _. issue-Keeps V C M T L user stored)).kept
          start (refl, λ key value f. absurd (cc f))).1
