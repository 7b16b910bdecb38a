-- ===== src/Auth/Logout.antt =====
-- internal/auth/auth.go: what a session is worth after Logout.
use jimm.Prelude.{ℕ, ◌≡◌, ◌≢◌, refl, sym, ap, ◌∙◌, subst, String, false, Option, some, find}
use jimm.Errors.{Result, ok, err, spent}
use jimm.Exec.{Exec, lift}
use jimm.Exec.Rules.{>>=-eq-ok, ok-injective}
use jimm.Ofga.Server.{Server}
use jimm.User.{wrapping, wrapped}
use jimm.Auth.{
  text, Token, Identity, Identities, Libraries, BrowserSession, SessionContext,
  session_identity_key, hidden_ok,
}
use jimm.Auth.Service.{AuthenticationService, hiding, update_identity}
use jimm.Auth.Sessions.{
  cast, entry, stored_token, refresh_unless, refresh_identities_token,
  validate_and_update_access_token, authenticate_browser_session, cleared, logout,
}

-- Identities are rows under their names, which only an update changes; reading the session and the
-- clock changes no row.
pub record RowLaws (V : Server) (D : Identities V) (L : Libraries V) : Type 1 where
  pub row : String → V.State → Option Identity
  pub loaded :
      (u r : Identity) (s s' : V.State)
      → D.get_identity u s ≡ (ok r, s')
      → (r.name ≡ u.name) × ((r0 : Identity) → row u.name s ≡ some r0 → r ≡ r0)
  pub updated :
      (u : Identity) (s s' : V.State) → D.update_identity u s ≡ (ok tt, s') → row u.name s' ≡ some u
  pub session_keeps : (name : String) (s : V.State) → row name (L.session_get s).1 ≡ row name s

-- A token without an access token is not valid, and one without a refresh token cannot be refreshed.
pub record TokenLaws (V : Server) (L : Libraries V) : Type 0 where
  pub empty_invalid : (t : Token) (now : ℕ) → t.access_token ≡ "" → L.valid t now ≡ false
  pub cannot_refresh :
      (t r : Token) (s s' : V.State) → t.refresh_token ≡ "" → L.refreshed t s ≢ (ok r, s')

module _ (V : Server) (D : Identities V) (L : Libraries V) (R : RowLaws V D L) (T : TokenLaws V L)
    (C : AuthenticationService) where
  -- The row under the name that the email stands for has no tokens.
  pub record LoggedOut (email : String) (s : V.State) : Type 0 where
    pub identity : Identity
    pub stored : Identity
    pub named : D.new_identity email ≡ ok identity
    pub found : R.row identity.name s ≡ some stored
    pub no_access : stored.access_token ≡ ""
    pub no_refresh : stored.refresh_token ≡ ""

  update-LoggedOut :
      (email : String) (t : Token) (s s' : V.State)
      → t.access_token ≡ ""
      → t.refresh_token ≡ ""
      → update_identity V D L C email t s ≡ (ok tt, s')
      → LoggedOut email s'
  unfolding update_identity
  update-LoggedOut email t s s' no_access no_refresh e =
      let (u, s1, e1, e2) = >>=-eq-ok (lift (D.new_identity email)) _ s s' tt e in
      let (r, s2, e3, e4) = >>=-eq-ok (D.get_identity u) _ s1 s' tt e2 in
      record {
        identity = u;
        stored = record r {
          access_token = t.access_token;
          refresh_token = t.refresh_token;
          access_token_expiry = t.expiry;
          access_token_type = t.token_type;
        };
        named = ap (λ r. r.0) e1;
        found = ap (λ n. R.row n s') (sym (R.loaded u r s1 s2 e3).0) ∙ R.updated _ s2 s' e4;
        no_access = no_access;
        no_refresh = no_refresh;
      }

  hiding_ok :
      {A : Type 0} (context : String) (m : Exec V.State A) (s s' : V.State) (a : A)
      → hiding context m s ≡ (ok a, s')
      → m s ≡ (ok a, s')
  unfolding hiding
  hiding_ok context m s s' a e =
      let answer : (m s).0 ≡ ok a = hidden_ok context (m s).0 a (ap (λ r. r.0) e) in
      λ i. (answer i, (ap (λ r. r.1) e) i)

  wrapping_ok :
      {A : Type 0} (context : String) (m : Exec V.State A) (s s' : V.State) (a : A)
      → wrapping V context m s ≡ (ok a, s')
      → m s ≡ (ok a, s')
  unfolding wrapping
  wrapping_ok {A = A} context m s s' a e =
      λ i. (inner (m s).0 (ap (λ r. r.0) e) i, (ap (λ r. r.1) e) i)
    where
      inner : (r : Result A) → wrapped context r ≡ ok a → r ≡ ok a
      inner (ok b) d = d
      inner (err x) d = absurd (cc d)
      inner spent d = absurd (cc d)

  logout-LoggedOut :
      (email : String) (s s' s0 : V.State) (b : BrowserSession)
      → L.session_get s ≡ (ok b, s0)
      → find session_identity_key b.entries ≡ some (text email)
      → logout V D L C s ≡ (ok tt, s')
      → LoggedOut email s'
  unfolding logout
  logout-LoggedOut email s s' s0 b got carried e =
      let (b', s1, e1, e2) =
        >>=-eq-ok (hiding "failed to retrieve session" L.session_get) _ s s' tt e in
      let (id, s2, e3, e4) = >>=-eq-ok (lift _) _ s1 s' tt e2 in
      let (name, s3, e5, e6) = >>=-eq-ok (lift _) _ s2 s' tt e4 in
      let (u, s4, e7, e8) = >>=-eq-ok (hiding "failed to delete session" _) _ s3 s' tt e6 in
      let (now, s5, e9, e10) = >>=-eq-ok D.now _ s4 s' tt e8 in
      let same_session : b' ≡ b = ok-injective (
        ap (λ r. r.0)
          (sym (hiding_ok "failed to retrieve session" L.session_get s s1 b' e1) ∙ got)) in
      let same_id : id ≡ text email = ok-injective (
        sym (ap (λ r. r.0) e3)
        ∙ ap (entry _) (
            ap (λ (x : BrowserSession). find session_identity_key x.entries) same_session
            ∙ carried)) in
      let same_name : name ≡ email = ok-injective (sym (ap (λ r. r.0) e5) ∙ ap (cast _) same_id) in
      subst (λ x. LoggedOut x s') same_name
        (update-LoggedOut name (cleared now) s5 s' refl refl
          (hiding_ok "failed to update identity" _ s5 s' tt e10))

  refused :
      (email : String) (s s' : V.State)
      → LoggedOut email s
      → validate_and_update_access_token V D L C (text email) s ≢ (ok tt, s')
  unfolding validate_and_update_access_token refresh_identities_token
  refused email s s' out e =
      let (u, s1, e1, e2) = >>=-eq-ok (lift (D.new_identity email)) _ s s' tt e in
      let (r, s2, e3, e4) = >>=-eq-ok (D.get_identity u) _ s1 s' tt e2 in
      let (now, s3, e5, e6) = >>=-eq-ok D.now _ s2 s' tt e4 in
      let same : u ≡ out.identity = ok-injective (ap (λ r. r.0) (sym e1) ∙ out.named) in
      let kept : R.row u.name s1 ≡ some out.stored =
        ap (λ (x : Identity). R.row x.name s1) same
        ∙ ap (λ r. R.row out.identity.name r.1) (sym e1)
        ∙ out.found in
      let loaded : r ≡ out.stored = (R.loaded u r s1 s2 e3).1 out.stored kept in
      let invalid : L.valid (stored_token r) now ≡ false =
        T.empty_invalid (stored_token r) now
          (ap (λ (x : Identity). x.access_token) loaded ∙ out.no_access) in
      let tried =
        subst (λ b. refresh_unless V D L C b email (stored_token r) s3 ≡ (ok tt, s')) invalid e6 in
      let (fresh, s4, e7, e8) =
        >>=-eq-ok (wrapping V "failed to refresh token" (L.refreshed (stored_token r))) _ s3 s' tt
          tried in
      T.cannot_refresh (stored_token r) fresh s3 s4
        (ap (λ (x : Identity). x.refresh_token) loaded ∙ out.no_refresh)
        (wrapping_ok "failed to refresh token" (L.refreshed (stored_token r)) s3 s4 fresh e7)

  -- After a Logout that reports no error, for a session of the identity `email`: as long as no row is
  -- updated, AuthenticateBrowserSession accepts no session of that identity, also not one whose
  -- deletion has not come to the store or that another browser holds.
  pub logout_ends_sessions :
      (email : String) (s s' s0 t t0 : V.State) (b b' : BrowserSession)
      → L.session_get s ≡ (ok b, s0)
      → find session_identity_key b.entries ≡ some (text email)
      → logout V D L C s ≡ (ok tt, s')
      → ((name : String) → R.row name t ≡ R.row name s')
      → L.session_get t ≡ (ok b', t0)
      → find session_identity_key b'.entries ≡ some (text email)
      → (ctx : SessionContext) (t' : V.State)
      → authenticate_browser_session V D L C t ≢ (ok ctx, t')
  unfolding authenticate_browser_session
  logout_ends_sessions email s s' s0 t t0 b b' got carried done rows got' carried' ctx t' e =
      let out : LoggedOut email s' = logout-LoggedOut email s s' s0 b got carried done in
      let (b1, t1, e1, e2) =
        >>=-eq-ok (hiding "failed to retrieve session" L.session_get) _ t t' ctx e in
      let (id, t2, e3, e4) = >>=-eq-ok (lift _) _ t1 t' ctx e2 in
      let (u, t3, e5, e6) =
        >>=-eq-ok
          (hiding "failed to validate and update status token"
            (validate_and_update_access_token V D L C id))
          _ t2 t' ctx e4 in
      let read = hiding_ok "failed to retrieve session" L.session_get t t1 b1 e1 in
      let same_session : b1 ≡ b' = ok-injective (ap (λ r. r.0) (sym read ∙ got')) in
      let same_id : id ≡ text email = ok-injective (
        sym (ap (λ r. r.0) e3)
        ∙ ap (entry _) (
            ap (λ (x : BrowserSession). find session_identity_key x.entries) same_session
            ∙ carried')) in
      let rows_then : (name : String) → R.row name t2 ≡ R.row name s' = λ name.
        ap (λ r. R.row name r.1) (sym e3)
        ∙ ap (λ r. R.row name r.1) (sym read)
        ∙ R.session_keeps name t
        ∙ rows name in
      let checked =
        hiding_ok "failed to validate and update status token"
          (validate_and_update_access_token V D L C id) t2 t3 u e5 in
      refused email t2 t3
        (record {
          identity = out.identity;
          stored = out.stored;
          named = out.named;
          found = rows_then out.identity.name ∙ out.found;
          no_access = out.no_access;
          no_refresh = out.no_refresh;
        })
        (ap (λ i. validate_and_update_access_token V D L C i t2) (sym same_id) ∙ checked)
