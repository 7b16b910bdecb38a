-- ===== src/Login/Vouched.antt =====
-- internal/jimm/login/login.go: who the user is that a login returns.
use jimm.Prelude.{
  ◌≡◌, ◌≢◌, refl, sym, ap, ◌∙◌, subst, String, Bool, true, false, List, [], ◌==◌, string_eq,
  if◌then◌else◌, false≢true,
}
use jimm.Errors.{Result, ok, err, spent, codef_wrap, error_code}
use jimm.Exec.{Exec}
use jimm.Exec.Rules.{ok-injective}
use jimm.Exec.Triples.{
  Good, Keeps, known-Keeps, silent-Keeps, result-Keeps, pure-Keeps, raise-Keeps, attempt-Keeps,
  if-Keeps, >>=-Keeps,
}
use jimm.Ofga.Names.{administrator_relation}
use jimm.Ofga.Tuples.{Tuple}
use jimm.Ofga.Server.{Server, CheckLaws}
use jimm.User.{
  User, new_user, set_idp_groups, user_tuple, user_check, is_administrator, contextual_tuples,
}
use jimm.User.Levels.{user_check_keeps, user_check_answer}
use jimm.Auth.{code_fatal_login_error, code_session_token_invalid, Jwt, Identity, SessionContext}
use jimm.Auth.Service.{session_groups_from_token}
use jimm.Login.{
  LoginManager, ensure_valid_service_account_id, coded_as, coding, token_answer,
  get_or_create_identity, update_last_login, user_login, login_verified, login_client_credentials,
  login_with_session_token, login_with_session_cookie,
}

-- The three ways in which a user logs in.
pub data LoginRequest : Type 0 where
  client_credentials : String → String → LoginRequest
  session_token : String → LoginRequest
  session_cookie : SessionContext → String → LoginRequest

-- Verifying an identity, and the database, change no tuple; the row that is read has the name that
-- it was asked for by.
pub record LoginLaws (V : Server) (M : LoginManager V) : Type 0 where
  pub credentials_keeps :
      (id secret : String) (s : V.State)
      → V.tuples (M.oauth_authenticator.verify_client_credentials id secret s).1 ≡ V.tuples s
  pub session_keeps :
      (token : String) (s : V.State)
      → V.tuples (M.oauth_authenticator.verify_session_token token s).1 ≡ V.tuples s
  pub get_keeps : (u : Identity) (s : V.State) → V.tuples (M.store.get_identity u s).1 ≡ V.tuples s
  pub update_keeps :
      (u : Identity) (s : V.State) → V.tuples (M.store.update_identity u s).1 ≡ V.tuples s
  pub now_keeps : (s : V.State) → V.tuples (M.store.now s).1 ≡ V.tuples s
  pub named :
      (u row : Identity) (s : V.State) → (M.store.get_identity u s).0 ≡ ok row → row.name ≡ u.name

coded_ok : {A : Type 0} (code : String) (r : Result A) (a : A) → coded_as code r ≡ ok a → r ≡ ok a
coded_ok code (ok b) a e = e
coded_ok code (err x) a e = absurd (cc e)
coded_ok code spent a e = absurd (cc e)

module _ (V : Server) (M : LoginManager V) where
  unfoldable pub log_in : LoginRequest → Exec V.State User
  unfolding login_client_credentials login_with_session_token login_with_session_cookie
  log_in (client_credentials id secret) = login_client_credentials V M id secret
  log_in (session_token token) = login_with_session_token V M token
  log_in (session_cookie ctx id) = login_with_session_cookie V M ctx id

  -- What the authenticator has said of the request: an identifier and groups.
  abbrev pub VouchedFor : LoginRequest → String → List String → Type 0
  VouchedFor (client_credentials id secret) identifier groups =
      (ensure_valid_service_account_id M.user_names id ≡ ok identifier)
      × (s : V.State) × ((M.oauth_authenticator.verify_client_credentials id secret s).0
          ≡ ok groups)
  VouchedFor (session_token token) identifier groups =
      (s : V.State) × (t : Jwt) × ((M.oauth_authenticator.verify_session_token token s).0 ≡ ok t)
      × (t.subject ≡ identifier)
      × (session_groups_from_token t ≡ ok groups)
  VouchedFor (session_cookie ctx id) identifier groups =
      (id ≢ "") × (id ≡ identifier) × (ctx.session_groups ≡ groups)

  module _ (stored : List Tuple) where
    -- Whether the authorization model has `name` administer JIMM, by the stored tuples alone.
    abbrev pub administers : String → Bool
    administers name =
        V.allowed stored [] (user_tuple (new_user name) M.jimm_tag administrator_relation)

    abbrev pub KnownAs : String → User → Type 0
    KnownAs identifier u =
        (identity : Identity) × (M.store.new_identity identifier ≡ ok identity)
        × (u.name ≡ identity.name)
        × (u.jimm_admin ≡ administers u.name)

    pub record LoggedIn (r : LoginRequest) (u : User) : Type 0 where
      pub identifier : String
      pub vouched : VouchedFor r identifier u.idp_group_ids
      pub known : KnownAs identifier u

module _ (V : Server) (C : CheckLaws V) (M : LoginManager V) (L : LoginLaws V M) where
  module _ (stored : List Tuple) where
    abbrev AtRest : V.State → Type 0
    AtRest s = V.tuples s ≡ stored

    coding-Keeps :
        {A : Type 0} {Q : A → Type 0} (code : String) {m : Exec V.State A}
        → Keeps AtRest m Q
        → Keeps AtRest (coding code m) Q
    unfolding coding
    coding-Keeps {Q = Q} code {m} k = record {
      kept = λ s p. ((k.kept s p).0, go (m s).0 (k.kept s p).1);
    }
      where
        go : (r : Result _) → Good Q r → Good Q (coded_as code r)
        go (ok a) q = q
        go (err x) q = tt
        go spent q = tt

    admin-Keeps :
        (name : String)
        → Keeps AtRest
            (is_administrator V (new_user name) M.jimm_tag)
            (λ b. b ≡ administers V M stored name)
    unfolding contextual_tuples
    admin-Keeps name =
        known-Keeps _
          (λ s p. user_check_keeps V C (new_user name) M.jimm_tag administrator_relation s ∙ p)
          (λ b s p e.
            let (ctx, v, answer) =
              user_check_answer V C (new_user name) M.jimm_tag administrator_relation s
                (user_check V (new_user name) M.jimm_tag administrator_relation s).1 b
                (λ i.
                  (e i, (user_check V (new_user name) M.jimm_tag administrator_relation s).1)) in
            let admin : Tuple = user_tuple (new_user name) M.jimm_tag administrator_relation in
            answer
            ∙ ap (λ c. V.allowed (V.tuples s) c admin) (sym (ok-injective v))
            ∙ ap (λ ts. V.allowed ts [] admin) p)

    identity-Keeps :
        (identifier : String)
        → Keeps AtRest
            (get_or_create_identity V M identifier)
            (λ p. KnownAs V M stored identifier p.0 × (p.0.idp_group_ids ≡ []))
    unfolding get_or_create_identity
    identity-Keeps identifier =
        >>=-Keeps (result-Keeps (M.store.new_identity identifier)) (λ identity e.
          >>=-Keeps
            (known-Keeps {Q = λ (row : Identity). row.name ≡ identity.name}
              (M.store.get_identity identity) (λ s p. L.get_keeps identity s ∙ p)
              (λ row s p d. L.named identity row s d))
            (λ row same.
              >>=-Keeps (admin-Keeps row.name)
                (λ b answer. pure-Keeps _ ((identity, e, same, answer), refl))))

    user_login-Keeps :
        (identifier : String)
        → Keeps AtRest (user_login V M identifier) (KnownAs V M stored identifier)
    unfolding user_login update_last_login
    user_login-Keeps identifier = >>=-Keeps (coding-Keeps _ (identity-Keeps identifier)) (λ p known.
        >>=-Keeps
          (>>=-Keeps (silent-Keeps M.store.now (λ s p. L.now_keeps s ∙ p))
            (λ now _. silent-Keeps (M.store.update_identity _) (λ s p. L.update_keeps _ s ∙ p)))
          (λ _ _. pure-Keeps _ known.0))

    credentials-Keeps :
        (id secret : String)
        → Keeps AtRest
            (login_client_credentials V M id secret)
            (LoggedIn V M stored (client_credentials id secret))
    unfolding login_client_credentials set_idp_groups
    credentials-Keeps id secret = >>=-Keeps (result-Keeps _) (λ identifier ensured.
        >>=-Keeps
          (coding-Keeps _ (
            known-Keeps
              {Q = λ groups.
                (s : V.State) × ((M.oauth_authenticator.verify_client_credentials id secret s).0
                  ≡ ok groups)}
              (M.oauth_authenticator.verify_client_credentials id secret)
              (λ s p. L.credentials_keeps id secret s ∙ p) (λ groups s p e. (s, e))))
          (λ groups verified. >>=-Keeps (coding-Keeps _ (user_login-Keeps identifier)) (λ u known.
            pure-Keeps _ (record {
              identifier = identifier;
              vouched =
                  (coded_ok code_fatal_login_error _ identifier ensured, verified.0, verified.1);
              known = known;
            }))))

    abbrev Confirmed : String → Jwt → Type 0
    Confirmed token t =
        (s : V.State) × ((M.oauth_authenticator.verify_session_token token s).0 ≡ ok t)

    vouched_token :
        (token : String) (answer : Result Jwt)
        → Good (Confirmed token) answer
        → (t : Jwt) → token_answer V M answer ≡ ok t
        → (groups : List String)
        → coded_as code_fatal_login_error (session_groups_from_token t) ≡ ok groups
        → VouchedFor V M (session_token token) t.subject groups
    vouched_token token (ok t0) (s, e) t passed groups read =
        (s, t, e ∙ passed, refl, coded_ok code_fatal_login_error _ groups read)
    vouched_token token (err x) verified t passed groups read =
        absurd (not_passed (error_code x == code_session_token_invalid) passed)
      where
        not_passed :
            (b : Bool) → (if b then err x else err (codef_wrap code_fatal_login_error x)) ≢ ok t
        not_passed true d = cc d
        not_passed false d = cc d
    vouched_token token spent verified t passed groups read = absurd (cc passed)

    verified-Keeps :
        (token : String) (answer : Result Jwt)
        → Good (Confirmed token) answer
        → Keeps AtRest (login_verified V M answer) (LoggedIn V M stored (session_token token))
    unfolding login_verified set_idp_groups
    verified-Keeps token answer verified =
        >>=-Keeps (result-Keeps (token_answer V M answer)) (λ t passed.
          >>=-Keeps (result-Keeps (coded_as code_fatal_login_error (session_groups_from_token t)))
            (λ groups read. >>=-Keeps (coding-Keeps _ (user_login-Keeps t.subject)) (λ u known.
              pure-Keeps _ (record {
                identifier = t.subject;
                vouched = vouched_token token answer verified t passed groups read;
                known = known;
              }))))

    session-Keeps :
        (token : String)
        → Keeps AtRest
            (login_with_session_token V M token)
            (LoggedIn V M stored (session_token token))
    unfolding login_with_session_token
    session-Keeps token =
        >>=-Keeps {Q = Good (Confirmed token)} {f = login_verified V M}
          (attempt-Keeps (
            known-Keeps {Q = Confirmed token} (M.oauth_authenticator.verify_session_token token)
              (λ s p. L.session_keeps token s ∙ p) (λ t s p e. (s, e))))
          (verified-Keeps token)

    cookie-Keeps :
        (ctx : SessionContext) (id : String)
        → Keeps AtRest
            (login_with_session_cookie V M ctx id)
            (LoggedIn V M stored (session_cookie ctx id))
    unfolding login_with_session_cookie set_idp_groups
    cookie-Keeps ctx id =
        if-Keeps (id == "") (λ _. raise-Keeps _)
          (λ some_id. >>=-Keeps (user_login-Keeps id) (λ u known. pure-Keeps _ (record {
            identifier = id;
            vouched = (λ e. absurd (false≢true (sym some_id ∙ ap (λ x. x == "") e)), refl, refl);
            known = known;
          })))

    log_in-Keeps : (r : LoginRequest) → Keeps AtRest (log_in V M r) (LoggedIn V M stored r)
    unfolding log_in
    log_in-Keeps (client_credentials id secret) = credentials-Keeps id secret
    log_in-Keeps (session_token token) = session-Keeps token
    log_in-Keeps (session_cookie ctx id) = cookie-Keeps ctx id

  -- The user that a login returns, by client credentials, session token or session cookie, is known
  -- by the name of the identity that the authenticator vouched for (for a cookie: that the request
  -- carries, which is not empty), has the groups that it vouched for and no others, and counts as an
  -- administrator of JIMM exactly where the authorization model has that name administer JIMM by the
  -- stored tuples alone. The login changes no tuple. Authenticator and database are taken to
  -- change none.
  pub login_vouched :
      (r : LoginRequest) (u : User) (s s' : V.State)
      → log_in V M r s ≡ (ok u, s')
      → LoggedIn V M (V.tuples s) r u × (V.tuples s' ≡ V.tuples s)
  login_vouched r u s s' e =
      let kept = (log_in-Keeps (V.tuples s) r).kept s refl in
      (
        subst (Good (LoggedIn V M (V.tuples s) r)) (ap (λ q. q.0) e) kept.1,
        ap (λ q. V.tuples q.1) (sym e) ∙ kept.0,
      )
