-- ===== src/Auth/Tokens.antt =====
-- internal/auth/auth.go: what becomes of a session token between MintSessionTokenWithGroups and
-- VerifySessionToken.
use jimm.Prelude.{
  ℕ, ◌+◌, ◌≤◌, ◌<◌, ◌≡◌, ◌≢◌, refl, sym, ap, ◌∙◌, subst, String, true, List, [], ◌∷◌, map, find,
  ==_apart, string_eq,
}
use jimm.Errors.{string_value, Error, error_code, codef, Result, ok, err}
use jimm.Exec.{lift}
use jimm.Exec.Rules.{>>=-eq-ok, ok-injective}
use jimm.Ofga.Server.{Server}
use jimm.Auth.{
  ClaimValue, texts, values, Jwt, Identities, Libraries, hidden, hidden_ok,
  code_session_token_invalid,
}
use jimm.Auth.Groups.{entries_as_texts, token_groups}
use jimm.Auth.Service.{
  AuthenticationService, groups_claim, session_groups_from_token, mint_session_token_with_groups,
  verify_session_token,
}

-- A claim that has been written as JSON and read again: a list of texts is then a list of values.
abbrev pub reread : List (String × ClaimValue) → List (String × ClaimValue)
reread [] = []
reread ((k, texts ss) ∷ cs) = (k, values (map string_value ss)) ∷ reread cs
reread ((k, c) ∷ cs) = (k, c) ∷ reread cs

-- A signed token is parsed under the same key until it expires, and base64 loses nothing.
pub record SigningLaws (V : Server) (L : Libraries V) : Type 0 where
  pub parse_signed :
      (key raw : String) (t : Jwt) (now : ℕ)
      → L.sign key t ≡ ok raw
      → now < t.expiration
      → L.parse key now raw
        ≡ ok (record { subject = t.subject; expiration = t.expiration; claims = reread t.claims })
  pub parse_expired :
      (key raw : String) (t : Jwt) (now : ℕ)
      → L.sign key t ≡ ok raw
      → t.expiration ≤ now
      → (e : Error) × (L.parse key now raw ≡ err e) × (L.is_expired e ≡ true)
  pub decode_encoded : (raw : String) → L.decode_base64 (L.encode_base64 raw) ≡ ok raw
  pub signed_some : (key raw : String) (t : Jwt) → L.sign key t ≡ ok raw → L.encode_base64 raw ≢ ""

entries_as_texts-map : (gs : List String) → entries_as_texts (map string_value gs) ≡ ok gs
unfolding entries_as_texts
entries_as_texts-map [] = refl
entries_as_texts-map (g ∷ gs) = rw (entries_as_texts-map gs) refl

reread_groups :
    (subject : String) (expiration : ℕ) (gs : List String)
    → session_groups_from_token
        (record { subject = subject; expiration = expiration; claims = reread (groups_claim gs) })
      ≡ ok gs
unfolding session_groups_from_token token_groups find
reread_groups subject expiration [] = refl
reread_groups subject expiration (g ∷ gs) = entries_as_texts-map (g ∷ gs)

-- What the verified token says.
pub record Verified (email : String) (groups : List String) (r : Result Jwt) : Type 0 where
  pub token : Jwt
  pub answer : r ≡ ok token
  pub of_email : token.subject ≡ email
  pub with_groups : session_groups_from_token token ≡ ok groups

module _ (V : Server) (D : Identities V) (L : Libraries V) (J : SigningLaws V L)
    (C : AuthenticationService) (email : String) (groups : List String) where
  abbrev minted : ℕ → Jwt
  minted now = record {
    subject = email;
    expiration = now + C.session_token_expiry;
    claims = groups_claim groups;
  }

  minted_raw :
      (s s' s0 : V.State) (now : ℕ) (token : String)
      → D.now s ≡ (ok now, s0)
      → mint_session_token_with_groups V D L C email groups s ≡ (ok token, s')
      → (raw : String) × (L.sign C.jwt_session_key (minted now) ≡ ok raw)
        × (token ≡ L.encode_base64 raw)
  unfolding mint_session_token_with_groups
  minted_raw s s' s0 now token clock h =
      let (n, s1, e1, e2) = >>=-eq-ok D.now _ s s' token h in
      let (raw, s2, e3, e4) =
        >>=-eq-ok
          (lift (hidden "failed to sign access token" (L.sign C.jwt_session_key (minted n)))) _ s1
          s' token e2 in
      let same : n ≡ now = ok-injective (ap (λ r. r.0) (sym e1 ∙ clock)) in
      (
        raw,
        subst (λ k. L.sign C.jwt_session_key (minted k) ≡ ok raw) same
            (hidden_ok "failed to sign access token" _ raw (ap (λ r. r.0) e3)),
        sym (ok-injective (ap (λ r. r.0) e4)),
      )

  module _ (raw : String) (some_text : L.encode_base64 raw ≢ "") (s s0 : V.State) (now : ℕ)
      (clock : D.now s ≡ (ok now, s0)) where
    verify_parsed :
        (t : Jwt)
        → L.parse C.jwt_session_key now raw ≡ ok t
        → L.parse_address t.subject ≡ ok tt
        → (verify_session_token V D L C (L.encode_base64 raw) s).0 ≡ ok t
    unfolding verify_session_token
    verify_parsed t p a =
        rw (==_apart (L.encode_base64 raw) "" some_text, J.decode_encoded raw, clock, p, a) refl

    verify_expired :
        (e : Error)
        → L.parse C.jwt_session_key now raw ≡ err e
        → L.is_expired e ≡ true
        → (verify_session_token V D L C (L.encode_base64 raw) s).0
          ≡ err (codef code_session_token_invalid "JIMM session token expired")
    unfolding verify_session_token
    verify_expired e p x =
        rw (==_apart (L.encode_base64 raw) "" some_text, J.decode_encoded raw, clock, p, x) refl

  -- A token that MintSessionTokenWithGroups has made is accepted by VerifySessionToken as long as it
  -- has not expired and the email is an address, and the verified token has that email as its
  -- subject and gives SessionGroupsFromToken the same groups in the same order. From its expiry on it
  -- is refused with the code by which a client knows to log in again.
  pub session_token_roundtrip :
      (s s' s0 t s1 : V.State) (minted_at later : ℕ) (token : String)
      → mint_session_token_with_groups V D L C email groups s ≡ (ok token, s')
      → D.now s ≡ (ok minted_at, s0)
      → D.now t ≡ (ok later, s1)
      → L.parse_address email ≡ ok tt
      → (later < minted_at + C.session_token_expiry
          → Verified email groups (verify_session_token V D L C token t).0)
        × (minted_at + C.session_token_expiry ≤ later
            → (e : Error) × ((verify_session_token V D L C token t).0 ≡ err e)
              × (error_code e ≡ code_session_token_invalid))
  unfolding codef error_code
  session_token_roundtrip s s' s0 t s1 minted_at later token h clock clock' address =
      let (raw, signed, same) = minted_raw s s' s0 minted_at token clock h in
      let some_text = J.signed_some C.jwt_session_key raw (minted minted_at) signed in
      (
        λ lt. record {
          token = record {
            subject = email;
            expiration = minted_at + C.session_token_expiry;
            claims = reread (groups_claim groups);
          };
          answer =
              ap (λ x. (verify_session_token V D L C x t).0) same
              ∙ verify_parsed raw some_text t s1 later clock' _
                  (J.parse_signed C.jwt_session_key raw (minted minted_at) later signed lt) address;
          of_email = refl;
          with_groups = reread_groups email (minted_at + C.session_token_expiry) groups;
        },
        λ le.
            let (e, p, x) =
              J.parse_expired C.jwt_session_key raw (minted minted_at) later signed le in
            (
              codef code_session_token_invalid "JIMM session token expired",
              ap (λ x. (verify_session_token V D L C x t).0) same
                  ∙ verify_expired raw some_text t s1 later clock' e p x,
              refl,
            ),
      )
