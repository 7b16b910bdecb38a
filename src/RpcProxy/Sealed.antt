-- ===== src/RpcProxy/Sealed.antt =====
-- The messages by which the controller may be told that a user has logged in, and the small actions
-- of the proxy, none of which writes another.
use jimm.Prelude.{
  ◌⊎◌, ◌≡◌, refl, ℕ, String, Bool, true, false, Option, none, some, List, ◌∷◌, All, if◌then◌else◌,
  ◌==◌, string_eq, nat_eq,
}
use jimm.Errors.{Error, Value, Result, ok, err, spent}
use jimm.Exec.{Exec}
use jimm.Exec.Triples.{
  Good, Keeps, Any, pure-Keeps, lift-Keeps, attempt-Keeps, forget-Keeps, >>=-Keeps,
}
use jimm.Ofga.Names.{JujuTag, user_kind}
use jimm.User.{User}
use jimm.RpcProxy.{
  Message, LoginRequest, Helpers, ModelProxy, Proxy, Act, call, get, of_result, try, modify, logged,
  write_client, write_controller, store, allocate, add_login_message, add_message, remove_message,
}
use jimm.RpcProxy.Messages.{create_err_response, audit_log_message, send_error, send_message}
use jimm.RpcProxy.Demands.{Demanded}
use jimm.RpcProxy.Client.{admin_type, login_request}

module _ (E : Helpers) where
  -- The login service has logged the user in on this connection's behalf.
  pub data LoggedIn (user : User) : Type 0 where
    by_session_token :
        (token : String) (w : E.World)
        → (E.login_with_session_token token w).0 ≡ ok user
        → LoggedIn user
    by_client_credentials :
        (id secret : String) (w : E.World)
        → (E.login_client_credentials id secret w).0 ≡ ok user
        → LoggedIn user
    by_session_cookie :
        (w : E.World)
        → (E.login_with_session_cookie E.authenticated_identity_id w).0 ≡ ok user
        → LoggedIn user

-- `Heard` tells the messages that the controller has sent.
module _ (E : Helpers) (Heard : Message → Type 0) where
  -- A token that the generator has made: at the login of a user, or later for just the permissions that
  -- a message of the controller asks for.
  pub data Issued (token : String) : Type 0 where
    at_login :
        (user : User) (w : E.World)
        → LoggedIn E user
        → (E.make_login_token user w).0 ≡ ok token
        → Issued token
    later :
        (m : Message) (permissions : List (String × Value)) (w : E.World)
        → Heard m
        → Demanded E m permissions
        → (E.make_token permissions w).0 ≡ ok token
        → Issued token

  -- The params of a login request that carries such a token.
  pub record Minted (params : String) : Type 0 where
    pub request : LoginRequest
    pub jwt : String
    pub issued : Issued jwt
    pub carries : request.token ≡ E.base64 jwt
    pub encoded : E.encode_login_request request ≡ ok params

  -- The params of an anonymous login request.
  pub record Anonymous (params : String) : Type 0 where
    pub request : LoginRequest
    pub tag : JujuTag
    pub decoded : E.decode_login_request params ≡ ok request
    pub parsed : E.parse_tag request.auth_tag ≡ ok tag
    pub of_user : tag.kind ≡ user_kind
    pub of_nobody : tag.id ≡ E.anonymous_username

  -- A message that logs in only with such params.
  abbrev pub Vouched : Message → Type 0
  Vouched m = m.type ≡ admin_type → m.request ≡ login_request → Anonymous m.params ⊎ Minted m.params

  abbrev pub Unflagged : Option ModelProxy → Type 0
  Unflagged none = Unit
  Unflagged (some c) = c.anonymous_login ≡ false

  pub record Sealed (cell : ℕ → Message) (sent : List Message) (controller : Option ModelProxy)
      : Type 0 where
    pub cells : (p : ℕ) → Vouched (cell p)
    pub written : All Vouched sent
    pub unflagged : Unflagged controller

  abbrev pub Inv : Proxy E → Type 0
  Inv s = Sealed s.cell s.to_controller s.controller

  pub call-Keeps :
      {A : Type 0} (m : Exec E.World A)
      → Keeps Inv (call E m) (λ a. (w : E.World) × ((m w).0 ≡ ok a))
  unfolding call
  call-Keeps {A = A} m = record { kept = λ s p. (p, go (m s.world).0 s.world refl) }
    where
      go :
          (r : Result A) (w : E.World)
          → (m w).0 ≡ r
          → Good (λ a. (w : E.World) × ((m w).0 ≡ ok a)) r
      go (ok a) w e = (w, e)
      go (err x) w e = tt
      go spent w e = tt

  pub modify-Keeps :
      (f : Proxy E → Proxy E) → ((s : Proxy E) → Inv s → Inv (f s)) → Keeps Inv (modify E f) Any
  unfolding modify
  modify-Keeps f h = record { kept = λ s p. (h s p, tt) }

  pub get-Keeps : {A : Type 0} (f : Proxy E → A) → Keeps Inv (get E f) Any
  unfolding get
  get-Keeps f = record { kept = λ s p. (p, tt) }

  pub get_cell-Keeps : (p : ℕ) → Keeps Inv (get E (λ s. s.cell p)) Vouched
  unfolding get
  get_cell-Keeps p = record { kept = λ s h. (h, h.cells p) }

  pub of_result-Keeps : {A : Type 0} (r : Result A) → Keeps Inv (of_result E r) (λ a. r ≡ ok a)
  unfolding of_result
  of_result-Keeps (ok a) = lift-Keeps (ok a) refl
  of_result-Keeps (err e) = lift-Keeps (err e) tt
  of_result-Keeps spent = lift-Keeps spent tt

  pub try-Keeps :
      {A : Type 0} {Q : A → Type 0} {m : Act E A} → Keeps Inv m Q → Keeps Inv (try E m) (Good Q)
  unfolding try
  try-Keeps k = attempt-Keeps k

  pub logged-Keeps :
      {A : Type 0} {Q : A → Type 0} {m : Act E A} → Keeps Inv m Q → Keeps Inv (logged E m) Any
  logged-Keeps k = >>=-Keeps (try-Keeps k) (λ r q. pure-Keeps tt tt)

  pub write_client-Keeps : (m : Message) → Keeps Inv (write_client E m) Any
  write_client-Keeps m =
      >>=-Keeps (modify-Keeps (λ s. record s { to_client = m ∷ s.to_client }) (λ s p. p))
        (λ u q. forget-Keeps (call-Keeps (E.client_write_json m)))

  pub write_controller-Keeps : (m : Message) → Vouched m → Keeps Inv (write_controller E m) Any
  write_controller-Keeps m v =
      >>=-Keeps
        (modify-Keeps (λ s. record s { to_controller = m ∷ s.to_controller })
          (λ s p. record { cells = p.cells; written = (v, p.written); unflagged = p.unflagged }))
        (λ u q. forget-Keeps (call-Keeps (E.controller_write_json m)))

  pub store-Vouched :
      (p : ℕ) (m : Message) (cell : ℕ → Message)
      → Vouched m
      → ((q : ℕ) → Vouched (cell q))
      → (q : ℕ) → Vouched (store E p m cell q)
  store-Vouched p m cell v h q = elim (q == p) as (λ b. Vouched (if b then m else cell q)) [
    | true ↦ v
    | false ↦ h q
  ]

  pub allocate-Keeps : (m : Message) → Vouched m → Keeps Inv (allocate E m) Any
  unfolding allocate
  allocate-Keeps m v = record {
    kept = λ s p. (
      record {
        cells = store-Vouched s.fresh m s.cell v p.cells;
        written = p.written;
        unflagged = p.unflagged;
      },
      tt,
    );
  }

  pub user-Keeps : Keeps Inv (get E (λ s. E.get_user s.world)) Any
  user-Keeps = get-Keeps (λ s. E.get_user s.world)

  pub audit-Keeps :
      (c : ModelProxy) (m : Message) (b : Bool) → Keeps Inv (audit_log_message E c m b) Any
  unfolding audit_log_message
  audit-Keeps c m false = >>=-Keeps user-Keeps (λ user q. forget-Keeps (call-Keeps _))
  audit-Keeps c m true = >>=-Keeps user-Keeps (λ user q.
      >>=-Keeps (of_result-Keeps _)
        (λ results q1. >>=-Keeps (of_result-Keeps _) (λ errors q2. forget-Keeps (call-Keeps _))))

  pub send_error-Keeps :
      (c : ModelProxy) (m : Message) (e : Error) → Keeps Inv (send_error E c m e) Any
  unfolding send_error
  send_error-Keeps c m e =
      >>=-Keeps (logged-Keeps (write_client-Keeps _))
        (λ u q. logged-Keeps (audit-Keeps c (create_err_response e m) true))

  pub send_message-Keeps : (m : Message) → Keeps Inv (send_message E m) Any
  unfolding send_message
  send_message-Keeps m = logged-Keeps (write_client-Keeps _)

  pub remove_message-Keeps : (k : ℕ) → Keeps Inv (remove_message E k) Any
  unfolding remove_message
  remove_message-Keeps k = modify-Keeps _ (λ s p. p)

  pub add_message-Keeps : (q : ℕ) → Keeps Inv (add_message E q) Any
  unfolding add_message
  add_message-Keeps q = modify-Keeps _ (λ s p. p)

  pub add_login_message-Keeps : (q : ℕ) → Keeps Inv (add_login_message E q) Any
  unfolding add_login_message
  add_login_message-Keeps q = modify-Keeps _ (λ s p. p)
