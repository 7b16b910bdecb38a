-- ===== src/RpcProxy/Refusals.antt =====
-- What the client sees of a response by which the controller asks for more permissions.
use jimm.Prelude.{
  ◌≡◌, ◌⊎◌, inl, inr, refl, sym, ap, ◌∙◌, subst, ℕ, String, Bool, true, false, Option, none, some,
  List, ◌∷◌, ◌==◌, ◌&&◌, string_eq, eq_iff, if◌then◌else◌, arith,
}
use jimm.Errors.{Error, Value, code_unauthorized, Result, ok, err, spent}
use jimm.Exec.{Exec, pure, ◌>>=◌, ◌>>◌}
use jimm.Exec.Triples.{
  Good, Good-Any, Keeps, Any, pure-Keeps, raise-Keeps, attempt-Keeps, if-Keeps, forget-Keeps,
  >>=-Keeps,
}
use jimm.RpcProxy.{
  Message, LoginRequest, Helpers, ModelProxy, next, Proxy, Act, call, get, of_result, try, modify,
  logged, write_controller, remove_message, get_message,
}
use jimm.RpcProxy.Messages.{
  create_err_response, audit_log_message, send_error, check_permissions_required,
  access_required_error_code,
}
use jimm.RpcProxy.Controller.{
  migrating, add_jwt, login_again, redo_login, handle_error, resend, after_login, if_required,
  process_controller_errors, deliver, controller_message,
}

-- Actions that write nothing to the client.
module _ (E : Helpers) (P : List Message → Type 0) where
  abbrev Seen : Proxy E → Type 0
  Seen s = P s.to_client

  call-Keeps : {A : Type 0} (m : Exec E.World A) → Keeps Seen (call E m) Any
  unfolding call
  call-Keeps m = record { kept = λ s p. (p, Good-Any (m s.world).0) }

  get-Keeps : {A : Type 0} (f : Proxy E → A) → Keeps Seen (get E f) Any
  unfolding get
  get-Keeps f = record { kept = λ s p. (p, tt) }

  of_result-Keeps : {A : Type 0} (r : Result A) → Keeps Seen (of_result E r) Any
  unfolding of_result
  of_result-Keeps r = record { kept = λ s p. (p, Good-Any r) }

  modify-Keeps :
      (f : Proxy E → Proxy E) → ((s : Proxy E) → Seen s → Seen (f s)) → Keeps Seen (modify E f) Any
  unfolding modify
  modify-Keeps f h = record { kept = λ s p. (h s p, tt) }

  try-Keeps : {A : Type 0} {m : Act E A} → Keeps Seen m Any → Keeps Seen (try E m) Any
  unfolding try
  try-Keeps k = forget-Keeps (attempt-Keeps k)

  logged-Keeps : {A : Type 0} {m : Act E A} → Keeps Seen m Any → Keeps Seen (logged E m) Any
  logged-Keeps k = >>=-Keeps (try-Keeps k) (λ r _. pure-Keeps tt tt)

  write_controller-Keeps : (m : Message) → Keeps Seen (write_controller E m) Any
  write_controller-Keeps m =
      >>=-Keeps (modify-Keeps (λ s. record s { to_controller = m ∷ s.to_controller }) (λ s p. p))
        (λ _ _. call-Keeps (E.controller_write_json m))

  user-Keeps : Keeps Seen (get E (λ s. E.get_user s.world)) Any
  user-Keeps = get-Keeps (λ s. E.get_user s.world)

  audit-Keeps : (c : ModelProxy) (m : Message) → Keeps Seen (audit_log_message E c m true) Any
  unfolding audit_log_message
  audit-Keeps c m = >>=-Keeps user-Keeps (λ user _.
      >>=-Keeps (of_result-Keeps _)
        (λ results _. >>=-Keeps (of_result-Keeps _) (λ errors _. call-Keeps _)))

  remove-Keeps : (k : ℕ) → Keeps Seen (remove_message E k) Any
  unfolding remove_message
  remove-Keeps k = modify-Keeps _ (λ s p. p)

  cell-Keeps : (q : ℕ) → Keeps Seen (get E (λ s. s.cell q)) Any
  cell-Keeps q = get-Keeps (λ s. s.cell q)

  add_jwt-Keeps :
      (q : ℕ) (permissions : List (String × Value)) → Keeps Seen (add_jwt E q permissions) Any
  unfolding add_jwt
  add_jwt-Keeps q permissions = >>=-Keeps (cell-Keeps q) (λ m _.
      >>=-Keeps (of_result-Keeps (E.decode_login_request m.params)) (λ (r : LoginRequest) _.
        >>=-Keeps (call-Keeps (E.make_token permissions)) (λ jwt _.
          >>=-Keeps (of_result-Keeps (E.encode_login_request (record r { token = E.base64 jwt })))
            (λ params _. modify-Keeps _ (λ s p. p)))))

  again-Keeps :
      (permissions : List (String × Value)) (q : Option ℕ)
      → Keeps Seen (login_again E permissions q) Any
  again-Keeps permissions none = raise-Keeps _
  again-Keeps permissions (some q) =
      >>=-Keeps (add_jwt-Keeps q permissions)
        (λ _ _. >>=-Keeps (cell-Keeps q) (λ m _. write_controller-Keeps m))

  redo_login-Keeps :
      (c : ModelProxy) (permissions : List (String × Value))
      → Keeps Seen (redo_login E c permissions) Any
  unfolding redo_login
  redo_login-Keeps c permissions =
      if-Keeps c.anonymous_login (λ _. raise-Keeps _)
        (λ _. >>=-Keeps (get-Keeps (λ s. s.login_message)) (λ q _. again-Keeps permissions q))

  resend-Keeps : (q : Option ℕ) → Keeps Seen (resend E q) Any
  resend-Keeps none = pure-Keeps tt tt
  resend-Keeps (some q) = >>=-Keeps (cell-Keeps q) (λ m _. logged-Keeps (write_controller-Keeps m))

  asked_again-Keeps :
      (c : ModelProxy) (m : Message) → Keeps Seen (after_login E c m (ok tt)) (λ o. o ≡ none)
  unfolding get_message
  asked_again-Keeps c m =
      >>=-Keeps (get-Keeps _) (λ q _. >>=-Keeps (resend-Keeps q) (λ _ _. pure-Keeps none refl))

  -- nothing is delivered
  deliver-Keeps :
      (c : ModelProxy) {a : Act E (Option Message)}
      → Keeps Seen a (λ o. o ≡ none)
      → Keeps Seen (a >>= deliver E c) (λ o. o ≡ next)
  deliver-Keeps c k = >>=-Keeps k (λ o e.
      subst (λ o. Keeps Seen (deliver E c o) (λ r. r ≡ next)) (sym e) (pure-Keeps next refl))

  -- what follows the write of an error response
  after_error-Keeps :
      (c : ModelProxy) (m : Message) (e : Error)
      → Keeps Seen
          ((logged E (call E (E.client_write_json (create_err_response e m)))
              >> logged E (audit_log_message E c (create_err_response e m) true))
            >> remove_message E m.request_id)
          Any
  after_error-Keeps c m e =
      >>=-Keeps
        (>>=-Keeps (logged-Keeps (call-Keeps (E.client_write_json (create_err_response e m))))
          (λ _ _. logged-Keeps (audit-Keeps c (create_err_response e m))))
        (λ _ _. remove-Keeps m.request_id)

if_true {ℓ} : {A : Type ℓ} (b : Bool) (x y : A) → b ≡ true → (if b then x else y) ≡ x
if_true b x y e = ap (λ c. if c then x else y) e

if_false {ℓ} : {A : Type ℓ} (b : Bool) (x y : A) → b ≡ false → (if b then x else y) ≡ y
if_false b x y e = ap (λ c. if c then x else y) e

module _ (E : Helpers) (m : Message) (before : List Message) where
  -- At most an error response to the request has been written to the client.
  abbrev pub Masked : List Message → Type 0
  Masked now = (now ≡ before) ⊎ ((e : Error) × (now ≡ create_err_response e m ∷ before))

  refused-Masked :
      (c : ModelProxy) (e : Error) (s : Proxy E)
      → s.to_client ≡ before
      → Masked (((handle_error E c m e >> pure none) >>= deliver E c) s).1.to_client
        × Good (λ o. o ≡ next) (((handle_error E c m e >> pure none) >>= deliver E c) s).0
  unfolding handle_error send_error modify try
  refused-Masked c e s p =
      let t : Proxy E = record s { to_client = create_err_response e m ∷ s.to_client } in
      (deliver-Keeps E Masked c
          (>>=-Keeps (after_error-Keeps E Masked c m e) (λ _ _. pure-Keeps none refl))).kept
        t (inr (e, ap (λ ms. create_err_response e m ∷ ms) p))

  answered :
      (c : ModelProxy) (r : Result (Unit {0})) (s : Proxy E)
      → s.to_client ≡ before
      → Masked ((after_login E c m r >>= deliver E c) s).1.to_client
        × Good (λ o. o ≡ next) ((after_login E c m r >>= deliver E c) s).0
  answered c (err e) s p = refused-Masked c e s p
  answered c (ok u) s p =
      let (same, good) =
        (deliver-Keeps E (λ now. now ≡ before) c
            (asked_again-Keeps E (λ now. now ≡ before) c m)).kept
          s p in
      (inl same, good)
  answered c spent s p = (inl p, tt)

  process-required :
      (c : ModelProxy) (permissions : List (String × Value))
      → m.error_code ≡ access_required_error_code
      → m.error_info ≡ some permissions
      → process_controller_errors E c m ≡ if_required E c m (ok (some permissions))
  unfolding process_controller_errors check_permissions_required
  process-required c permissions h i =
      let asks : (m.error_code == access_required_error_code) ≡ true =
        (eq_iff m.error_code access_required_error_code).1 h in
      let other : (m.error_code == code_unauthorized) ≡ false =
        ap (λ x. x == code_unauthorized) h in
      if_false (migrating c && m.error_code == code_unauthorized) _ _ (ground (arith, other))
      ∙ ap (if_required E c m)
          (if_true (m.error_code == access_required_error_code) _ _ asks ∙ ap ok i)

  -- Where the controller refuses a request for lack of access and names permissions, that response is
  -- not written to the client. Whatever fails, the client is sent nothing at that point, or one error
  -- response to the request; and the proxy goes on with the next message.
  pub access_required_masked :
      (c : ModelProxy) (permissions : List (String × Value)) (s : Proxy E)
      → m.error_code ≡ access_required_error_code
      → m.error_info ≡ some permissions
      → s.to_client ≡ before
      → Masked (controller_message E c m s).1.to_client
        × Good (λ o. o ≡ next) (controller_message E c m s).0
  unfolding controller_message try
  access_required_masked c permissions s h i p =
      let (r, t) = redo_login E c permissions s in
      subst
        (λ a.
          Masked ((a >>= deliver E c) s).1.to_client
          × Good (λ o. o ≡ next) ((a >>= deliver E c) s).0)
        (sym (process-required c permissions h i))
        (answered c r t ((redo_login-Keeps E (λ now. now ≡ before) c permissions).kept s p).0)
