-- ===== src/Login/Service.antt =====
-- internal/auth/auth.go and internal/jimm/login/login.go: the authentication service as the
-- authenticator of the login manager.
use jimm.Prelude.{◌≡◌, refl, ap, ◌∙◌, String, ◌==◌, string_eq}
use jimm.Errors.{Result, ok, err, spent}
use jimm.Exec.{lift, continue}
use jimm.Exec.Triples.{
  Keeps, Any, Good-Any, silent-Keeps, lift-Keeps, raise-Keeps, if-Keeps, >>=-Keeps,
}
use jimm.Ofga.Server.{Server}
use jimm.User.{wrapped}
use jimm.Auth.{Identity, Identities, Libraries}
use jimm.Auth.Service.{
  AuthenticationService, authenticator, verify_client_credentials, verify_session_token,
  parse_answer, address_answer, credentials_token,
}
use jimm.Login.{LoginManager, UserNames}
use jimm.Ofga.Names.{JujuTag}
use jimm.Login.Vouched.{LoginLaws}

-- Neither the database nor the identity provider changes a tuple.
pub record StoreLaws (V : Server) (D : Identities V) (L : Libraries V) : Type 0 where
  pub client_keeps :
      (id secret : String) (s : V.State) → V.tuples (L.client_token id secret s).1 ≡ V.tuples s
  pub get_keeps : (u : Identity) (s : V.State) → V.tuples (D.get_identity u s).1 ≡ V.tuples s
  pub update_keeps : (u : Identity) (s : V.State) → V.tuples (D.update_identity u s).1 ≡ V.tuples s
  pub now_keeps : (s : V.State) → V.tuples (D.now s).1 ≡ V.tuples s
  pub named : (u row : Identity) (s : V.State) → (D.get_identity u s).0 ≡ ok row → row.name ≡ u.name

module _ (V : Server) (D : Identities V) (L : Libraries V) (C : AuthenticationService)
    (jimm_tag : JujuTag) (N : UserNames) where
  abbrev pub manager : LoginManager V
  manager = record {
    store = D;
    oauth_authenticator = authenticator V D L C;
    jimm_tag = jimm_tag;
    user_names = N;
  }

module _ (V : Server) (D : Identities V) (L : Libraries V) (K : StoreLaws V D L)
    (C : AuthenticationService) (jimm_tag : JujuTag) (N : UserNames) where
  -- the tuples are those of `s`
  abbrev Still : V.State → V.State → Type 0
  Still s t = V.tuples t ≡ V.tuples s

  lifted-Keeps : {A : Type 0} (s : V.State) (r : Result A) → Keeps (Still s) (lift r) Any
  lifted-Keeps s r = lift-Keeps r (Good-Any r)

  lifted_state :
      {A B : Type 0} (f : A → Result B) (r : Result A) (s : V.State)
      → (continue (λ a. lift (f a)) r s).1 ≡ s
  lifted_state f (ok a) s = refl
  lifted_state f (err e) s = refl
  lifted_state f spent s = refl

  credentials_keeps :
      (id secret : String) (s : V.State)
      → V.tuples (verify_client_credentials V D L C id secret s).1 ≡ V.tuples s
  unfolding verify_client_credentials
  credentials_keeps id secret s =
      ap V.tuples (
        lifted_state _ (credentials_token V D L C (L.client_token id secret s).0)
          (L.client_token id secret s).1)
      ∙ K.client_keeps id secret s

  session-Keeps :
      (token : String) (s : V.State) → Keeps (Still s) (verify_session_token V D L C token) Any
  unfolding verify_session_token
  session-Keeps token s =
      if-Keeps (token == "") (λ _. raise-Keeps _)
        (λ _.
          >>=-Keeps (lifted-Keeps s (wrapped "failed to decode token" (L.decode_base64 token)))
            (λ raw _. >>=-Keeps (silent-Keeps D.now (λ t p. K.now_keeps t ∙ p)) (λ now _.
              >>=-Keeps (lifted-Keeps s (parse_answer V D L C (L.parse C.jwt_session_key now raw)))
                (λ t _. lifted-Keeps s (address_answer V D L C t (L.parse_address t.subject))))))

  pub service-LoginLaws : LoginLaws V (manager V D L C jimm_tag N)
  service-LoginLaws = record {
    credentials_keeps = credentials_keeps;
    session_keeps = λ token s. ((session-Keeps token s).kept s refl).0;
    get_keeps = K.get_keeps;
    update_keeps = K.update_keeps;
    now_keeps = K.now_keeps;
    named = K.named;
  }
