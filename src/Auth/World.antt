-- ===== src/Auth/World.antt =====
-- A database of one identity, a store of one session, and a signer of one token.
use jimm.Prelude.{
  ◌≡◌, refl, sym, ap, ap₂, eq_iff, nat_beq_iff, ◌∙◌, String, Bool, true, false, false≢true, not,
  Option, none, some, List, [], ◌∷◌, ltb, ◌==◌, string_eq, nat_eq, pos, ==_refl, if◌then◌else◌,
  ◌&&◌, arith,
}
use jimm.Errors.{plain, Result, ok, err}
use jimm.Exec.Rules.{ok-injective}
use jimm.Exec.{pure}
use jimm.Ofga.Server.{Server}
use jimm.Ofga.Memory.{memory}
use jimm.Ofga.Memory.Beside.{beside, on_right}
use jimm.Auth.{
  ClaimValue, text, texts, values, other_claim, Jwt, Token, Identity, Identities, Libraries,
  BrowserSession,
}
use jimm.Auth.Service.{AuthenticationService, groups_claim}
use jimm.Auth.Tokens.{reread, SigningLaws}
use jimm.Auth.Browser.{SessionLaws}
use jimm.Auth.Logout.{RowLaws, TokenLaws}

pub record World : Type 0 where
  pub identity : Identity
  pub entries : List (String × ClaimValue)

abbrev pub site : Server
site = beside memory World

abbrev pub alice : Identity
alice = record {
  name = "alice@canonical.com";
  display_name = "alice";
  last_login = none;
  access_token = "a";
  refresh_token = "r";
  access_token_expiry = 100;
  access_token_type = "bearer";
}

abbrev row_under : String → World → Option Identity
row_under name w = if w.identity.name == name then some w.identity else none

abbrev pub database : Identities site
database = record {
  new_identity = λ name. ok (record alice { name = name });
  get_identity = λ u.
      on_right memory World
        (λ w. (if w.identity.name == u.name then ok w.identity else err (plain "not found"), w));
  update_identity = λ u. on_right memory World (λ w. (ok tt, record w { identity = u }));
  now = pure 50;
}

-- The one token that is signed.
abbrev pub ticket : Jwt
ticket = record {
  subject = "alice@canonical.com";
  expiration = 60;
  claims = groups_claim ("admins" ∷ []);
}

abbrev admins_only : List (String × ClaimValue) → Bool
admins_only ((k, texts (g ∷ [])) ∷ []) = k == "groups" && (g == "admins")
admins_only other = false

abbrev one_ticket : Jwt → Bool
one_ticket t =
    (t.subject == "alice@canonical.com") && ((t.expiration == 60) && admins_only t.claims)

abbrev read_ticket : Jwt
read_ticket = record ticket { claims = reread ticket.claims }

abbrev session : World → BrowserSession
session w = record {
  is_new = false;
  max_age = pos 10;
  secure = true;
  http_only = true;
  same_site_none = true;
  entries = w.entries;
}

abbrev unmarked : String → Result String
unmarked String.[] = err (plain "no text")
unmarked (String.◌∷◌ c raw) = ok raw

abbrev pub libraries : Libraries site
libraries = record {
  device_access_token = λ code. pure (stored alice);
  client_token = λ id secret. pure (stored alice);
  refreshed = λ t s. (if t.refresh_token == "" then err (plain "no refresh token") else ok t, s);
  valid = λ t now. not (t.access_token == "");
  verify_id_token = λ raw. pure (record { subject = raw; claims = ok [] });
  sign = λ key t. if one_ticket t then ok "ticket" else err (plain "not signed");
  parse = λ key now raw. if ltb now 60 then ok read_ticket else err (plain "expired");
  parse_insecure = λ raw. ok (record ticket { claims = ("teams", text "admins, users") ∷ [] });
  is_expired = λ e. true;
  encode_base64 = λ raw. String.◌∷◌ "b" raw;
  decode_base64 = unmarked;
  parse_address = λ a. ok tt;
  session_get = on_right memory World (λ w. (ok (session w), w));
  session_save = λ b. on_right memory World (λ w. (ok tt, record w { entries = b.entries }));
}
  where
    stored : Identity → Token
    stored u = record {
      access_token = u.access_token;
      refresh_token = u.refresh_token;
      expiry = u.access_token_expiry;
      token_type = u.access_token_type;
      id_token = some "id";
    }

both : (a b : Bool) → (a && b) ≡ true → (a ≡ true) × (b ≡ true)
both true b e = (refl, e)
both false b e = absurd (false≢true e)

admins_only_lem :
    (cs : List (String × ClaimValue)) → admins_only cs ≡ true → cs ≡ groups_claim ("admins" ∷ [])
admins_only_lem ((k, texts (g ∷ [])) ∷ []) e =
    let (key, group) = both (k == "groups") (g == "admins") e in
    ap₂ (λ k g. (k, texts (g ∷ [])) ∷ []) ((eq_iff k "groups").0 key) ((eq_iff g "admins").0 group)
admins_only_lem [] e = absurd (false≢true e)
admins_only_lem ((k, texts []) ∷ cs) e = absurd (false≢true e)
admins_only_lem ((k, texts (g ∷ h ∷ gs)) ∷ cs) e = absurd (false≢true e)
admins_only_lem ((k, texts (g ∷ [])) ∷ c ∷ cs) e = absurd (false≢true e)
admins_only_lem ((k, text x) ∷ cs) e = absurd (false≢true e)
admins_only_lem ((k, values x) ∷ cs) e = absurd (false≢true e)
admins_only_lem ((k, other_claim) ∷ cs) e = absurd (false≢true e)

signs_ticket :
    (key raw : String) (t : Jwt)
    → libraries.sign key t ≡ ok raw
    → (t.expiration ≡ 60)
      × (reread t.claims ≡ read_ticket.claims)
      × (t.subject ≡ "alice@canonical.com")
signs_ticket key raw t e =
    let signed : one_ticket t ≡ true = ground (arith, e) in
    let (subject, rest) = both (t.subject == "alice@canonical.com") _ signed in
    let (expiration, claims) = both (t.expiration == 60) (admins_only t.claims) rest in
    (
      (nat_beq_iff t.expiration 60).0 expiration,
      ap reread (admins_only_lem t.claims claims),
      (eq_iff t.subject "alice@canonical.com").0 subject,
    )

pub signing : SigningLaws site libraries
signing = record {
  parse_signed = λ key raw t now e lt.
      let (expiration, claims, subject) = signs_ticket key raw t e in
      let early : ltb now 60 ≡ true = ground (arith, expiration, lt) in
      rw (early, expiration, claims, subject) refl;
  parse_expired = λ key raw t now e le.
      let (expiration, claims, subject) = signs_ticket key raw t e in
      (plain "expired", ground (arith, expiration, le), refl);
  decode_encoded = λ raw. refl;
  signed_some = λ key raw t e d. cc d;
}

abbrev pub service : AuthenticationService
service = record {
  session_token_expiry = 10;
  jwt_session_key = "key";
  group_claim_key = "teams";
  session_cookie_max_age = 100;
  secure_cookies = true;
}

abbrev pub start : site.State
start = ([], record { identity = alice; entries = [] })

abbrev pub sessions : SessionLaws site database libraries
sessions = record {
  entries_of = λ s. s.1.entries;
  got = λ s s' b e. ap (λ (x : BrowserSession). x.entries) (sym (ok-injective (ap (λ r. r.0) e)));
  get_keeps = λ s. refl;
  saved = λ b s s' e. ap (λ r. r.1.1.entries) (sym e);
  save_keeps = λ b s e. e;
  identity_keeps = λ u s. refl;
  update_keeps = λ u s. refl;
  now_keeps = λ s. refl;
  refresh_keeps = λ t s. refl;
}

read_row :
    (w : World) (u r : Identity) (b : Bool)
    → (w.identity.name == u.name) ≡ b
    → (if b then ok w.identity else err (plain "not found")) ≡ ok r
    → (w.identity.name ≡ u.name) × (w.identity ≡ r)
read_row w u r true t e = ((eq_iff w.identity.name u.name).0 t, ok-injective e)
read_row w u r false t e = absurd (cc e)

kept_row :
    (w : World) (u r r0 : Identity)
    → (w.identity.name ≡ u.name) × (w.identity ≡ r)
    → row_under u.name w ≡ some r0
    → r ≡ r0
kept_row w u r r0 (name, same) e =
    let here : (w.identity.name == u.name) ≡ true = (eq_iff w.identity.name u.name).1 name in
    let found : some w.identity ≡ some r0 =
      sym (ap (λ b. if b then some w.identity else none) here) ∙ e in
    sym same ∙ ap (or w.identity) found
  where
    or : Identity → Option Identity → Identity
    or d (some x) = x
    or d none = d

pub row_loaded :
    (u r : Identity) (s s' : site.State)
    → database.get_identity u s ≡ (ok r, s')
    → (r.name ≡ u.name) × ((r0 : Identity) → row_under u.name s.1 ≡ some r0 → r ≡ r0)
row_loaded u r s s' e =
    let read = read_row s.1 u r (s.1.identity.name == u.name) refl (ap (λ q. q.0) e) in
    (ap (λ (x : Identity). x.name) (sym read.1) ∙ read.0, λ r0 d. kept_row s.1 u r r0 read d)

abbrev pub rows : RowLaws site database libraries
rows = record {
  row = λ name s. row_under name s.1;
  loaded = row_loaded;
  updated = λ u s s' e.
      ap (λ r. row_under u.name r.1.1) (sym e)
      ∙ ap (λ b. if b then some u else none) (==_refl u.name);
  session_keeps = λ name s. refl;
}

pub refreshing : TokenLaws site libraries
refreshing = record {
  empty_invalid = λ t now e. rw e refl;
  cannot_refresh = λ t r s s' e d. absurd (
      cc (
        sym (
          ap (λ b. if b then err (plain "no refresh token") else ok t)
            ((eq_iff t.refresh_token "").1 e))
        ∙ ap (λ q. q.0) d));
}
