-- ===== src/RpcProxy/Authority.antt =====
-- What the controller is sent in the name of a user, over a whole connection.
use mathlib.Core.List.{Memᴰ}
use mathlib.Core.List.Memᴰ.{head, tail}
use jimm.Prelude.{
  ◌≡◌, refl, subst, inr, ℕ, String, true, false, Option, none, some, List, [], ◌∷◌, All,
  if◌then◌else◌, false≢true, ◌==◌, ◌&&◌, eq_iff, string_eq,
}
use jimm.Errors.{Error, Value, code_unauthorized, Result, ok, err, spent}
use jimm.Exec.{◌>>=◌}
use jimm.Exec.Triples.{Keeps, Any, pure-Keeps, raise-Keeps, lift-Keeps, if-Keeps, >>=-Keeps}
use jimm.RpcProxy.{Message, LoginRequest, Helpers, ModelProxy, Proxy, get, get_message}
use jimm.RpcProxy.Client.{admin_type}
use jimm.RpcProxy.Messages.{check_permissions_required}
use jimm.RpcProxy.Demands.{Demanded, check_permissions_required-Demanded}
use jimm.RpcProxy.Controller.{
  migrating, add_jwt, login_again, redo_login, handle_error, resend, after_login, if_required,
  process_controller_errors, delivered, modified, deliver, controller_message,
}
use jimm.RpcProxy.Session.{
  Event, client_sends, controller_sends, client_read_fails, controller_read_fails, client_step,
  controller_step, new_session, step, run,
}
use jimm.RpcProxy.Sealed.{
  later, Unflagged, Inv, call-Keeps, modify-Keeps, get-Keeps, get_cell-Keeps, of_result-Keeps,
  try-Keeps, logged-Keeps, write_client-Keeps, write_controller-Keeps, store-Vouched, audit-Keeps,
  send_error-Keeps, remove_message-Keeps,
}
use jimm.RpcProxy.FromClient.{client_message-Keeps}

-- What the controller says in the event is heard.
abbrev HeardIn : (Message → Type 0) → Event → Type 0
HeardIn Heard (controller_sends m) = Heard m
HeardIn Heard e = Unit

module _ (E : Helpers) (Heard : Message → Type 0) where
  -- The controller has asked for the permissions.
  abbrev Asked : List (String × Value) → Type 0
  Asked permissions = (m : Message) × Heard m × Demanded E m permissions

  add_jwt-Keeps :
      (q : ℕ) (permissions : List (String × Value))
      → Asked permissions
      → Keeps (Inv E Heard) (add_jwt E q permissions) Any
  unfolding add_jwt
  add_jwt-Keeps q permissions (asking, heard, demanded) =
      >>=-Keeps (get_cell-Keeps E Heard q) (λ m _.
        >>=-Keeps (of_result-Keeps E Heard (E.decode_login_request m.params))
          (λ (r : LoginRequest) _.
            >>=-Keeps (call-Keeps E Heard (E.make_token permissions)) (λ jwt (w, e).
              >>=-Keeps
                (of_result-Keeps E Heard
                  (E.encode_login_request (record r { token = E.base64 jwt })))
                (λ params d. modify-Keeps E Heard _ (λ s p. record {
                  cells =
                      store-Vouched E Heard q (record (s.cell q) { params = params }) s.cell
                        (λ _ _. inr (record {
                          request = record r { token = E.base64 jwt };
                          jwt = jwt;
                          issued = later asking permissions w heard demanded e;
                          carries = refl;
                          encoded = d;
                        }))
                        p.cells;
                  written = p.written;
                  unflagged = p.unflagged;
                })))))

  again-Keeps :
      (permissions : List (String × Value)) (q : Option ℕ)
      → Asked permissions
      → Keeps (Inv E Heard) (login_again E permissions q) Any
  again-Keeps permissions none asked = raise-Keeps _
  again-Keeps permissions (some q) asked =
      >>=-Keeps (add_jwt-Keeps q permissions asked)
        (λ _ _. >>=-Keeps (get_cell-Keeps E Heard q) (λ m v. write_controller-Keeps E Heard m v))

  redo_login-Keeps :
      (c : ModelProxy) (permissions : List (String × Value))
      → Asked permissions
      → Keeps (Inv E Heard) (redo_login E c permissions) Any
  unfolding redo_login
  redo_login-Keeps c permissions asked =
      if-Keeps c.anonymous_login (λ _. raise-Keeps _)
        (λ _.
          >>=-Keeps (get-Keeps E Heard (λ s. s.login_message))
            (λ q _. again-Keeps permissions q asked))

  handle_error-Keeps :
      (c : ModelProxy) (m : Message) (e : Error) → Keeps (Inv E Heard) (handle_error E c m e) Any
  unfolding handle_error
  handle_error-Keeps c m e =
      >>=-Keeps (send_error-Keeps E Heard c m e) (λ _ _. remove_message-Keeps E Heard m.request_id)

  resend-Keeps : (q : Option ℕ) → Keeps (Inv E Heard) (resend E q) Any
  resend-Keeps none = pure-Keeps tt tt
  resend-Keeps (some q) =
      >>=-Keeps (get_cell-Keeps E Heard q)
        (λ m v. logged-Keeps E Heard (write_controller-Keeps E Heard m v))

  after_login-Keeps :
      (c : ModelProxy) (m : Message) (r : Result (Unit {0}))
      → Keeps (Inv E Heard) (after_login E c m r) Any
  unfolding get_message
  after_login-Keeps c m (err e) = >>=-Keeps (handle_error-Keeps c m e) (λ _ _. pure-Keeps none tt)
  after_login-Keeps c m (ok u) =
      >>=-Keeps (get-Keeps E Heard _)
        (λ q _. >>=-Keeps (resend-Keeps q) (λ _ _. pure-Keeps none tt))
  after_login-Keeps c m spent = lift-Keeps spent tt

  required-Keeps :
      (c : ModelProxy) (m : Message) (r : Result (Option (List (String × Value))))
      → Heard m
      → check_permissions_required E m ≡ r
      → Keeps (Inv E Heard) (if_required E c m r) Any
  required-Keeps c m (err e) heard found =
      >>=-Keeps (handle_error-Keeps c m e) (λ _ _. pure-Keeps none tt)
  required-Keeps c m (ok none) heard found = pure-Keeps _ tt
  required-Keeps c m (ok (some permissions)) heard found =
      >>=-Keeps
        (try-Keeps E Heard (
          redo_login-Keeps c permissions
            (m, heard, check_permissions_required-Demanded E m permissions found)))
        (λ r _. after_login-Keeps c m r)
  required-Keeps c m spent heard found = lift-Keeps spent tt

  delivered-Keeps : (r : Result (Unit {0})) → Keeps (Inv E Heard) (delivered E r) Any
  delivered-Keeps (ok u) = pure-Keeps _ tt
  delivered-Keeps (err e) = pure-Keeps _ tt
  delivered-Keeps spent = lift-Keeps spent tt

  modified-Keeps :
      (c : ModelProxy) (m : Message) (r : Result Message)
      → Keeps (Inv E Heard) (modified E c m r) Any
  modified-Keeps c m (err e) = >>=-Keeps (handle_error-Keeps c m e) (λ _ _. pure-Keeps _ tt)
  modified-Keeps c m (ok t) = >>=-Keeps (remove_message-Keeps E Heard t.request_id) (λ _ _.
      >>=-Keeps (logged-Keeps E Heard (audit-Keeps E Heard c t true)) (λ _ _.
        >>=-Keeps (try-Keeps E Heard (write_client-Keeps E Heard t)) (λ r _. delivered-Keeps r)))
  modified-Keeps c m spent = lift-Keeps spent tt

  deliver-Keeps : (c : ModelProxy) (m : Option Message) → Keeps (Inv E Heard) (deliver E c m) Any
  deliver-Keeps c none = pure-Keeps _ tt
  deliver-Keeps c (some m) = modified-Keeps c m _

  controller_message-Keeps :
      (c : ModelProxy) (m : Message) → Heard m → Keeps (Inv E Heard) (controller_message E c m) Any
  unfolding controller_message process_controller_errors
  controller_message-Keeps c m heard =
      >>=-Keeps
        (if-Keeps (migrating c && m.error_code == code_unauthorized) (λ _. pure-Keeps _ tt)
          (λ _. required-Keeps c m (check_permissions_required E m) heard refl))
        (λ o _. deliver-Keeps c o)

  controller_step-Inv :
      (m : Message) (c : Option ModelProxy) (s : Proxy E)
      → Heard m
      → Inv E Heard s
      → Inv E Heard (controller_step E m c s)
  controller_step-Inv m none s heard p = p
  controller_step-Inv m (some c) s heard p = ((controller_message-Keeps c m heard).kept s p).0

  step-Inv : (e : Event) (s : Proxy E) → HeardIn Heard e → Inv E Heard s → Inv E Heard (step E e s)
  unfolding step
  step-Inv (client_sends m) s heard p =
      elim s.client_open as (λ b. Inv E Heard (if b then client_step E m s else s)) [
        | true ↦ ((client_message-Keeps E Heard m).kept s p).0
        | false ↦ p
      ]
  step-Inv (controller_sends m) s heard p =
      elim s.controller_open
        as (λ b. Inv E Heard (if b then controller_step E m s.controller s else s)) [
          | true ↦ controller_step-Inv m s.controller s heard p
          | false ↦ p
        ]
  step-Inv client_read_fails s heard p = p
  step-Inv controller_read_fails s heard p = p

  run-Inv :
      (es : List Event) (s : Proxy E)
      → All (HeardIn Heard) es
      → Inv E Heard s
      → Inv E Heard (run E es s)
  unfolding run
  run-Inv [] s heard p = p
  run-Inv (e ∷ es) s (now, later_on) p = run-Inv es (step E e s) later_on (step-Inv e s now p)

  new_session-Inv : (w : E.World) → Inv E Heard (new_session E w)
  unfolding new_session
  new_session-Inv w = record {
    cells = λ q a. absurd (false≢true ((eq_iff "" admin_type).1 a));
    written = tt;
    unflagged = tt;
  }

-- The controller sends the message in the run.
abbrev pub Said : List Event → Message → Type 0
Said es m = Memᴰ (controller_sends m) es

Said-HeardIn : (es : List Event) (e : Event) → Memᴰ e es → HeardIn (Said es) e
Said-HeardIn es (client_sends m) h = tt
Said-HeardIn es (controller_sends m) h = h
Said-HeardIn es client_read_fails h = tt
Said-HeardIn es controller_read_fails h = tt

All-of : {A : Type 0} (P : A → Type 0) (xs : List A) → ((x : A) → Memᴰ x xs → P x) → All P xs
All-of P [] h = tt
All-of P (x ∷ xs) h = (h x (head refl), All-of P xs (λ y m. h y (tail m)))

session-Inv :
    (E : Helpers) (es : List Event) (w : E.World) → Inv E (Said es) (run E es (new_session E w))
session-Inv E es w =
    run-Inv E (Said es) es (new_session E w) (All-of (HeardIn (Said es)) es (Said-HeardIn es))
      (new_session-Inv E (Said es) w)

-- However a connection has gone on, the flag that the controller's proxy tests before it logs in
-- again is not set, also after an anonymous login: redoLogin always goes on to the login message
-- and the token generator.
pub redo_login_unguarded :
    (E : Helpers) (es : List Event) (w : E.World) (c : ModelProxy)
    → (run E es (new_session E w)).controller ≡ some c
    → (permissions : List (String × Value)) (s : Proxy E)
    → redo_login E c permissions s
      ≡ (get E (λ (t : Proxy E). t.login_message) >>= login_again E permissions) s
unfolding redo_login
redo_login_unguarded E es w c e permissions s =
    rw (subst (Unflagged E (Said es)) e (session-Inv E es w).unflagged)
