-- ===== src/Auth/Browser.antt =====
-- internal/auth/auth.go: a browser session that was created, when it comes back with its cookie.
use jimm.Prelude.{
  ℕ, ◌≡◌, refl, sym, ap, ◌∙◌, ◌≢◌, subst, String, Bool, true, false, Option, none, some, List, [],
  put, find, pos, ℤ,
}
use jimm.Errors.{Result, ok, err, spent}
use jimm.Exec.{Exec}
use jimm.Exec.Rules.{>>=-eq-ok, ok-injective}
use jimm.Exec.Triples.{
  Good, Keeps, Any, Good-Any, pure-Keeps, known-Keeps, silent-Keeps, result-Keeps, >>=-Keeps,
}
use jimm.Ofga.Server.{Server}
use jimm.User.{wrapping}
use jimm.Auth.{
  ClaimValue, text, texts, Token, Identity, Identities, Libraries, BrowserSession, SessionContext,
  session_identity_from_context, session_identity_key, session_groups_key, hidden,
}
use jimm.Auth.Groups.{session_groups_from_value}
use jimm.Auth.Service.{AuthenticationService, hiding, update_identity}
use jimm.Auth.Sessions.{
  cast, entry, stored_token, session_cross_origin_safe, modify_session,
  create_browser_session_with_groups, refresh_unless, refresh_identities_token,
  validate_and_update_access_token, authenticate_browser_session,
}

-- What the store keeps for the cookie of a browser: only saving the session changes it.
pub record SessionLaws (V : Server) (D : Identities V) (L : Libraries V) : Type 1 where
  pub entries_of : V.State → List (String × ClaimValue)
  pub got :
      (s s' : V.State) (b : BrowserSession)
      → L.session_get s ≡ (ok b, s')
      → b.entries ≡ entries_of s
  pub get_keeps : (s : V.State) → entries_of (L.session_get s).1 ≡ entries_of s
  pub saved :
      (b : BrowserSession) (s s' : V.State)
      → L.session_save b s ≡ (ok tt, s')
      → entries_of s' ≡ b.entries
  pub save_keeps :
      (b : BrowserSession) (s : V.State)
      → b.entries ≡ entries_of s
      → entries_of (L.session_save b s).1 ≡ entries_of s
  pub identity_keeps :
      (u : Identity) (s : V.State) → entries_of (D.get_identity u s).1 ≡ entries_of s
  pub update_keeps :
      (u : Identity) (s : V.State) → entries_of (D.update_identity u s).1 ≡ entries_of s
  pub now_keeps : (s : V.State) → entries_of (D.now s).1 ≡ entries_of s
  pub refresh_keeps : (t : Token) (s : V.State) → entries_of (L.refreshed t s).1 ≡ entries_of s

module _ (V : Server) (D : Identities V) (L : Libraries V) (J : SessionLaws V D L)
    (C : AuthenticationService) where
  created :
      (email : String) (groups : List String) (s s' : V.State)
      → create_browser_session_with_groups V D L C email groups s ≡ (ok tt, s')
      → (others : List (String × ClaimValue)) × (J.entries_of s'
          ≡ put session_groups_key (texts groups) (put session_identity_key (text email) others))
  unfolding create_browser_session_with_groups
  created email groups s s' e =
      let (b, s1, e1, e2) = >>=-eq-ok L.session_get _ s s' tt e in (b.entries, J.saved _ s1 s' e2)

  module _ (stored : List (String × ClaimValue)) where
    abbrev Kept : V.State → Type 0
    Kept s = J.entries_of s ≡ stored

    hidden-Good :
        {A : Type 0} (Q : A → Type 0) (context : String) (r : Result A)
        → Good Q r
        → Good Q (hidden context r)
    hidden-Good Q context (ok a) q = q
    hidden-Good Q context (err x) q = tt
    hidden-Good Q context spent q = tt

    hiding-Keeps :
        {A : Type 0} {Q : A → Type 0} (context : String) {m : Exec V.State A}
        → Keeps Kept m Q
        → Keeps Kept (hiding context m) Q
    unfolding hiding
    hiding-Keeps {Q = Q} context {m} k = record {
      kept = λ s p. ((k.kept s p).0, hidden-Good Q context (m s).0 (k.kept s p).1);
    }

    wrapping-Keeps :
        {A : Type 0} (context : String) {m : Exec V.State A}
        → Keeps Kept m Any
        → Keeps Kept (wrapping V context m) Any
    unfolding wrapping
    wrapping-Keeps context k = record { kept = λ s p. ((k.kept s p).0, Good-Any _) }

    got-Keeps : Keeps Kept L.session_get (λ (b : BrowserSession). b.entries ≡ stored)
    got-Keeps =
        known-Keeps L.session_get (λ s p. J.get_keeps s ∙ p)
          (λ b s p e. J.got s (L.session_get s).1 b (λ i. (e i, (L.session_get s).1)) ∙ p)

    identity-Keeps : (u : Identity) → Keeps Kept (D.get_identity u) Any
    identity-Keeps u = silent-Keeps (D.get_identity u) (λ s p. J.identity_keeps u s ∙ p)

    update-Keeps : (email : String) (t : Token) → Keeps Kept (update_identity V D L C email t) Any
    unfolding update_identity
    update-Keeps email t = >>=-Keeps (result-Keeps (D.new_identity email)) (λ u _.
        >>=-Keeps (identity-Keeps u)
          (λ row _. silent-Keeps (D.update_identity _) (λ s p. J.update_keeps _ s ∙ p)))

    refresh-Keeps :
        (email : String) (t : Token) → Keeps Kept (refresh_identities_token V D L C email t) Any
    unfolding refresh_identities_token
    refresh-Keeps email t =
        >>=-Keeps
          (wrapping-Keeps "failed to refresh token"
            (silent-Keeps (L.refreshed t) (λ s p. J.refresh_keeps t s ∙ p)))
          (λ fresh _. wrapping-Keeps "failed to update identity" (update-Keeps email fresh))

    refresh_unless-Keeps :
        (valid : Bool) (email : String) (t : Token)
        → Keeps Kept (refresh_unless V D L C valid email t) Any
    refresh_unless-Keeps true email t = pure-Keeps tt tt
    refresh_unless-Keeps false email t = refresh-Keeps email t

    validate-Keeps :
        (id : ClaimValue) → Keeps Kept (validate_and_update_access_token V D L C id) Any
    unfolding validate_and_update_access_token
    validate-Keeps id = >>=-Keeps (result-Keeps (cast "failed to cast email" id)) (λ email _.
        >>=-Keeps (result-Keeps (D.new_identity email)) (λ identity _.
          >>=-Keeps (identity-Keeps identity) (λ u _.
            >>=-Keeps (silent-Keeps D.now (λ s p. J.now_keeps s ∙ p))
              (λ now _. refresh_unless-Keeps _ email (stored_token u)))))

    -- What the context of a request with this session carries.
    abbrev Carries : SessionContext → Type 0
    Carries ctx =
        (find session_identity_key stored ≡ ctx.session_identity)
        × (session_groups_from_value (find session_groups_key stored) ≡ ok ctx.session_groups)

    entry_found :
        (missing : Result ClaimValue) (o : Option ClaimValue) (v : ClaimValue)
        → missing ≢ ok v
        → entry missing o ≡ ok v
        → o ≡ some v
    entry_found missing none v h e = absurd (h e)
    entry_found missing (some w) v h e = ap some (ok-injective e)

    modify-Keeps :
        (b : BrowserSession) (max_age : ℤ)
        → b.entries ≡ stored
        → Keeps Kept (modify_session V D L C b max_age) Any
    unfolding modify_session
    modify-Keeps b max_age same =
        silent-Keeps (modify_session V D L C b max_age) (λ s p. J.save_keeps _ s (same ∙ sym p) ∙ p)

    authenticate-Keeps : Keeps Kept (authenticate_browser_session V D L C) Carries
    unfolding authenticate_browser_session
    authenticate-Keeps = >>=-Keeps (hiding-Keeps "failed to retrieve session" got-Keeps) (λ b same.
        >>=-Keeps (result-Keeps _) (λ id found.
          >>=-Keeps (hiding-Keeps "failed to validate and update status token" (validate-Keeps id))
            (λ _ _. >>=-Keeps (result-Keeps _) (λ groups read.
              >>=-Keeps
                (modify-Keeps (session_cross_origin_safe C.secure_cookies b)
                  (pos C.session_cookie_max_age) same)
                (λ _ _. pure-Keeps _ (
                  ap (find session_identity_key) (sym same)
                      ∙ entry_found _ (find session_identity_key b.entries) id (λ z. cc) found,
                  ap (λ m. session_groups_from_value (find session_groups_key m)) (sym same) ∙ read,
                ))))))

  -- The session can be read, the token of the email's row is valid, and saving succeeds.
  pub record Usable (email : String) (t : V.State) : Type 0 where
    pub session : BrowserSession
    pub identity : Identity
    pub row : Identity
    pub time : ℕ
    pub t1 : V.State
    pub t2 : V.State
    pub t3 : V.State
    pub t4 : V.State
    pub read : L.session_get t ≡ (ok session, t1)
    pub named : D.new_identity email ≡ ok identity
    pub loaded : D.get_identity identity t1 ≡ (ok row, t2)
    pub clock : D.now t2 ≡ (ok time, t3)
    pub fresh : L.valid (stored_token row) time ≡ true
    pub written :
        modify_session V D L C
          (session_cross_origin_safe C.secure_cookies session)
          (pos C.session_cookie_max_age)
          t3
        ≡ (ok tt, t4)

  accepted :
      (email : String) (groups : List String) (others : List (String × ClaimValue)) (t : V.State)
      → J.entries_of t
        ≡ put session_groups_key (texts groups) (put session_identity_key (text email) others)
      → Usable email t
      → (authenticate_browser_session V D L C t).0
        ≡ ok (record { session_identity = some (text email); session_groups = groups })
  unfolding authenticate_browser_session hiding validate_and_update_access_token find
      session_groups_from_value
  accepted email groups others t stored u =
      let entries = J.got t u.t1 u.session u.read ∙ stored in
      let found : find session_identity_key u.session.entries ≡ some (text email) =
        ap (find session_identity_key) entries in
      let of_groups : session_groups_from_value (find session_groups_key u.session.entries)
          ≡ ok groups =
        ap (λ m. session_groups_from_value (find session_groups_key m)) entries in
      rw (u.read, found, u.named, u.loaded, u.clock, u.fresh, of_groups, u.written) refl

  -- A browser session that CreateBrowserSessionWithGroups has made, then and at any later time with
  -- the same session in the store: AuthenticateBrowserSession accepts it where the token of the row
  -- is valid and nothing fails, and whenever it accepts it, the context carries the email and the
  -- groups that it was made with, in their order, and the store still has that session.
  pub browser_session_roundtrip :
      (email : String) (groups : List String) (s s1 t : V.State)
      → create_browser_session_with_groups V D L C email groups s ≡ (ok tt, s1)
      → J.entries_of t ≡ J.entries_of s1
      → (Usable email t
          → (ctx : SessionContext) × ((authenticate_browser_session V D L C t).0 ≡ ok ctx))
        × ((ctx : SessionContext) (t1 : V.State)
            → authenticate_browser_session V D L C t ≡ (ok ctx, t1)
            → (session_identity_from_context ctx ≡ email)
              × (ctx.session_groups ≡ groups)
              × (J.entries_of t1 ≡ J.entries_of s1))
  unfolding find session_groups_from_value session_identity_from_context
  browser_session_roundtrip email groups s s1 t made same =
      let (others, stored) = created email groups s s1 made in
      let whole : List (String × ClaimValue) =
        put session_groups_key (texts groups) (put session_identity_key (text email) others) in
      let kept = (authenticate-Keeps whole).kept t (same ∙ stored) in
      (
        λ u. (_, accepted email groups others t (same ∙ stored) u),
        λ ctx t1 answer.
            let carried : Carries whole ctx =
              subst (λ r. Good (Carries whole) r) (ap (λ r. r.0) answer) kept.1 in
            (
              ap
                  (λ i.
                    session_identity_from_context
                      (record { session_identity = i; session_groups = [] }))
                  (sym carried.0),
              sym (ok-injective carried.1),
              ap (λ r. J.entries_of r.1) (sym answer) ∙ kept.0 ∙ sym stored,
            ),
      )
