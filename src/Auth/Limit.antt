-- ===== src/Auth/Limit.antt =====
-- internal/auth/auth.go and internal/openfga/user.go: the groups that a login brings along are few
-- enough for the checks that are made with them.
use jimm.Prelude.{
  ◌≤◌, ◌≡◌, ◌⊎◌, inl, inr, refl, ap, subst, String, Bool, true, false, Option, none, some, List,
  length, ltb, find, All, map, ◌==◌, string_eq, if◌then◌else◌, arith,
}
use jimm.Errors.{Result, ok, err, spent, codef, code_unauthorized}
use jimm.Exec.{Exec, lift, attempt, ◌>>=◌}
use jimm.Exec.Rules.{>>=-eq-ok, ok-injective}
use jimm.Ofga.Server.{Server}
use jimm.User.{User, set_idp_groups, membership, contextual_tuples}
use jimm.User.Groups.{Valid, contextual_tuples-map}
use jimm.Auth.{ClaimValue, Jwt, Token, IdentityClaims, Identities, Libraries, hidden, hidden_ok}
use jimm.Auth.Groups.{claimed_groups, within_limit, idp_group_limit}
use jimm.Auth.Service.{
  AuthenticationService, hiding, extract_email_claim, extract_groups_from_access_token,
  extract_claims, claims_of, claim_in, verify_and_extract_identity_claims,
  verify_client_credentials, raw_id_token, credentials_token,
}

abbrev Few : Result (List String) → Type 0
Few r = (groups : List String) → r ≡ ok groups → length groups ≤ idp_group_limit

within_limit-Few : (r : Result (List String)) → Few (within_limit r)
within_limit-Few (ok gs) groups e = pick (ltb idp_group_limit (length gs)) refl e
  where
    pick :
        (many : Bool)
        → ltb idp_group_limit (length gs) ≡ many
        → (if many
            then err (codef code_unauthorized "authorization denied: too many IDP groups in claim")
            else ok gs)
          ≡ ok groups
        → length groups ≤ idp_group_limit
    pick true m d = absurd (cc d)
    pick false m d = subst (λ xs. length xs ≤ idp_group_limit) (ok-injective d) (ground (arith, m))
within_limit-Few (err x) groups e = absurd (cc e)
within_limit-Few spent groups e = absurd (cc e)

module _ (V : Server) (D : Identities V) (L : Libraries V) (C : AuthenticationService) where
  claim_in-Few : (c : Option ClaimValue) → Few (claim_in V D L C c)
  claim_in-Few none groups e =
      subst (λ xs. length xs ≤ idp_group_limit) (ok-injective e) (omega arith)
  claim_in-Few (some c) groups e = within_limit-Few (claimed_groups c) groups e

  claims_of-Few : (r : Result Jwt) → Few (claims_of V D L C r)
  claims_of-Few (ok t) groups e = claim_in-Few (find C.group_claim_key t.claims) groups e
  claims_of-Few (err x) groups e = absurd (cc e)
  claims_of-Few spent groups e = absurd (cc e)

  either-Few : (b : Bool) (r q : Result (List String)) → Few r → Few q → Few (if b then r else q)
  either-Few true r q f g = f
  either-Few false r q f g = g

  extract-Few : (t : Token) → Few (extract_groups_from_access_token V D L C t)
  unfolding extract_groups_from_access_token
  extract-Few t =
      either-Few (t.access_token == "") _ _ (λ groups e. absurd (cc e))
        (either-Few (C.group_claim_key == "") _ _
          (λ groups e. subst (λ xs. length xs ≤ idp_group_limit) (ok-injective e) (omega arith))
          (claims_of-Few (L.parse_insecure t.access_token)))

  abbrev extracted : Token → Exec V.State (List String)
  extracted t = lift (
      hidden "failed to extract groups from access token"
        (extract_groups_from_access_token V D L C t))

  abbrev extracted_from : Result Token → Exec V.State (List String)
  extracted_from answer = lift (credentials_token V D L C answer) >>= extracted

  verified-Few :
      (id secret : String) (groups : List String) (s s' : V.State)
      → verify_client_credentials V D L C id secret s ≡ (ok groups, s')
      → length groups ≤ idp_group_limit
  unfolding verify_client_credentials
  verified-Few id secret groups s s' e =
      let (answer, s1, e1, e2) =
        >>=-eq-ok (attempt (L.client_token id secret)) extracted_from s s' groups e in
      let (t, s2, e3, e4) =
        >>=-eq-ok (lift (credentials_token V D L C answer)) extracted s1 s' groups e2 in
      extract-Few t groups
        (hidden_ok "failed to extract groups from access token" _ groups (ap (λ r. r.0) e4))

  claims-Few :
      (t : Token) (claims : IdentityClaims) (s s' : V.State)
      → verify_and_extract_identity_claims V D L C t s ≡ (ok claims, s')
      → length claims.groups ≤ idp_group_limit
  unfolding verify_and_extract_identity_claims extract_claims
  claims-Few t claims s s' e =
      let (raw, s1, e1, e2) = >>=-eq-ok (lift (raw_id_token V D L C t.id_token)) _ s s' claims e in
      let (id, s2, e3, e4) =
        >>=-eq-ok (hiding "failed to verify id token" (L.verify_id_token raw)) _ s1 s' claims e2 in
      let (email, s3, e5, e6) = >>=-eq-ok (lift (extract_email_claim id)) _ s2 s' claims e4 in
      let (groups, s4, e7, e8) =
        >>=-eq-ok
          (lift (
            hidden "failed to extract groups from access token"
              (extract_groups_from_access_token V D L C t)))
          _ s3 s' claims e6 in
      subst (λ (c : IdentityClaims). length c.groups ≤ idp_group_limit)
        (ok-injective (ap (λ r. r.0) e8))
        (extract-Few t groups
          (hidden_ok "failed to extract groups from access token" _ groups (ap (λ r. r.0) e7)))

  -- Whatever the access token claims: the groups that VerifyClientCredentials returns, or
  -- VerifyAndExtractIdentityClaims, are 20 at most, so that where their identifiers are valid every
  -- check of a user with these groups is made with one contextual tuple for each of them.
  pub groups_within_limit :
      (groups : List String) (s s' : V.State)
      → ((id secret : String) × (verify_client_credentials V D L C id secret s ≡ (ok groups, s')))
        ⊎ ((t : Token) × (claims : IdentityClaims) × (verify_and_extract_identity_claims V D L C t s
              ≡ (ok claims, s'))
            × (claims.groups ≡ groups))
      → (length groups ≤ idp_group_limit)
        × ((u : User)
            → All Valid groups
            → let member = set_idp_groups u groups in
              contextual_tuples member ≡ ok (map (membership member) groups))
  unfolding set_idp_groups
  groups_within_limit groups s s' (inl (id, secret, e)) =
      let few = verified-Few id secret groups s s' e in
      (few, λ u valid. contextual_tuples-map (set_idp_groups u groups) few valid)
  groups_within_limit groups s s' (inr (t, claims, e, same)) =
      let few : length groups ≤ idp_group_limit =
        subst (λ xs. length xs ≤ idp_group_limit) same (claims-Few t claims s s' e) in
      (few, λ u valid. contextual_tuples-map (set_idp_groups u groups) few valid)
