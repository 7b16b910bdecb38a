-- ===== src/RpcProxy/FromClient.antt =====
-- clientProxy writes no login to the controller that is not vouched for.
use jimm.Prelude.{
  ◌≡◌, ◌≢◌, refl, sym, ◌∙◌, inl, inr, ℕ, String, Bool, true, false, Option, none, some, false≢true,
  eq_iff, ◌==◌, string_eq, nat_eq,
}
use jimm.Errors.{Error, Result, ok, err, spent}
use jimm.Exec.{pure, ◌>>=◌, ◌>>◌}
use jimm.Exec.Triples.{Good, Keeps, Any, pure-Keeps, raise-Keeps, lift-Keeps, if-Keeps, >>=-Keeps}
use jimm.Ofga.Names.{JujuTag, user_kind}
use jimm.User.{User}
use jimm.RpcProxy.{
  Message, LoginRequest, Helpers, ConnectionMetadata, ModelProxy, Outcome, next, get,
}
use jimm.RpcProxy.Client.{
  Routed, to_source, to_destination, unhandled, admin_type, login_request, client_message,
  handle_admin_facade, controller_login_message, by_tag, tagged, redirect, handle_legacy_login,
  respond, login_device_request, get_device_session_token_request, login_with_session_token_request,
  login_with_client_credentials_request, login_with_session_cookie_request, connected, connect_once,
  make_controller_connection, written, write_in_flight, forward, routed, by_facade, proceed,
}
use jimm.RpcProxy.Messages.{send_error}
use jimm.RpcProxy.Sealed.{
  LoggedIn, by_session_token, by_client_credentials, by_session_cookie, at_login, Vouched, Inv,
  call-Keeps, modify-Keeps, get-Keeps, of_result-Keeps, try-Keeps, logged-Keeps,
  write_controller-Keeps, allocate-Keeps, audit-Keeps, send_error-Keeps, send_message-Keeps,
  remove_message-Keeps, add_message-Keeps, add_login_message-Keeps,
}

module _ (E : Helpers) (Heard : Message → Type 0) where
  -- What the handling of an Admin message may let through to the controller.
  abbrev Vetted : Message → Routed → Type 0
  Vetted m (to_source response) = Unit
  Vetted m (to_destination login) = Vouched E Heard login
  Vetted m unhandled = m.request ≢ login_request

  controller_login_message-Keeps :
      (m : Message) (user : User)
      → LoggedIn E user
      → Keeps (Inv E Heard) (controller_login_message E m user) (Vetted m)
  unfolding controller_login_message
  controller_login_message-Keeps m user l =
      >>=-Keeps (call-Keeps E Heard (E.make_login_token user)) (λ jwt (w, e).
        >>=-Keeps (of_result-Keeps E Heard _) (λ params q. pure-Keeps _ (λ a b. inr (record {
          request = _;
          jwt = jwt;
          issued = at_login user w l e;
          carries = refl;
          encoded = q;
        }))))

  redirect-Keeps : (m : Message) (r : Result _) → Keeps (Inv E Heard) (redirect E r) (Vetted m)
  redirect-Keeps m (ok d) = raise-Keeps _
  redirect-Keeps m (err d) = raise-Keeps _
  redirect-Keeps m spent = lift-Keeps spent tt

  by_tag-Keeps :
      (m : Message) (r : LoginRequest) (tag : JujuTag)
      → E.decode_login_request m.params ≡ ok r
      → E.parse_tag r.auth_tag ≡ ok tag
      → Keeps (Inv E Heard) (by_tag E m tag) (Vetted m)
  by_tag-Keeps m r tag d e =
      if-Keeps (tag.kind == user_kind)
        (λ u.
          if-Keeps (tag.id == E.anonymous_username)
            (λ a. >>=-Keeps (modify-Keeps E Heard _ (λ s p. p)) (λ _ _. pure-Keeps _ (λ _ _.
              inl (record {
                request = r;
                tag = tag;
                decoded = d;
                parsed = e;
                of_user = (eq_iff tag.kind user_kind).0 u;
                of_nobody = (eq_iff tag.id E.anonymous_username).0 a;
              }))))
            (λ a. raise-Keeps _))
        (λ u.
          if-Keeps _
            (λ a.
              >>=-Keeps (try-Keeps E Heard (call-Keeps E Heard E.get_redirect_info))
                (λ x q. redirect-Keeps m x))
            (λ a. raise-Keeps _))

  tagged-Keeps :
      (m : Message) (r : LoginRequest) (t : Result JujuTag)
      → E.decode_login_request m.params ≡ ok r
      → E.parse_tag r.auth_tag ≡ t
      → Keeps (Inv E Heard) (tagged E m t) (Vetted m)
  tagged-Keeps m r (ok tag) d e = by_tag-Keeps m r tag d e
  tagged-Keeps m r (err x) d e = raise-Keeps _
  tagged-Keeps m r spent d e = lift-Keeps spent tt

  legacy-Keeps : (m : Message) → Keeps (Inv E Heard) (handle_legacy_login E m) (Vetted m)
  unfolding handle_legacy_login
  legacy-Keeps m =
      >>=-Keeps (of_result-Keeps E Heard _)
        (λ r d. tagged-Keeps m r (E.parse_tag r.auth_tag) d refl)

  respond-Keeps : (m : Message) (t : Result String) → Keeps (Inv E Heard) (respond E m t) (Vetted m)
  respond-Keeps m t = >>=-Keeps (of_result-Keeps E Heard t) (λ _ _. pure-Keeps _ tt)

  facade-Keeps : (m : Message) → Keeps (Inv E Heard) (handle_admin_facade E m) (Vetted m)
  unfolding handle_admin_facade login_device_request get_device_session_token_request
      login_with_session_token_request login_with_client_credentials_request
      login_with_session_cookie_request
  facade-Keeps m =
      if-Keeps (m.request == "LoginDevice")
        (λ _.
          >>=-Keeps (call-Keeps E Heard E.login_device)
            (λ d _. >>=-Keeps (modify-Keeps E Heard _ (λ s p. p)) (λ _ _. respond-Keeps m _)))
        (λ _.
          if-Keeps (m.request == "GetDeviceSessionToken")
            (λ _.
              >>=-Keeps (get-Keeps E Heard (λ s. s.client.device_oauth_response))
                (λ d _. >>=-Keeps (call-Keeps E Heard _) (λ t _. respond-Keeps m _)))
            (λ _.
              if-Keeps (m.request == "LoginWithSessionToken")
                (λ _. >>=-Keeps (of_result-Keeps E Heard _) (λ t _.
                  >>=-Keeps (call-Keeps E Heard (E.login_with_session_token t))
                    (λ u (w, e). controller_login_message-Keeps m u (by_session_token t w e))))
                (λ _.
                  if-Keeps (m.request == "LoginWithClientCredentials")
                    (λ _. >>=-Keeps (of_result-Keeps E Heard _) (λ (c : String × String) _.
                      >>=-Keeps (call-Keeps E Heard (E.login_client_credentials c.0 c.1))
                        (λ u (w, e).
                          controller_login_message-Keeps m u (by_client_credentials c.0 c.1 w e))))
                    (λ _.
                      if-Keeps (m.request == "LoginWithSessionCookie")
                        (λ _.
                          >>=-Keeps
                            (call-Keeps E Heard
                              (E.login_with_session_cookie E.authenticated_identity_id))
                            (λ u (w, e).
                              controller_login_message-Keeps m u (by_session_cookie w e)))
                        (λ _.
                          if-Keeps (m.request == login_request) (λ _. legacy-Keeps m)
                            (λ other. pure-Keeps unhandled (λ same.
                              false≢true
                                (sym other ∙ (eq_iff m.request login_request).1 same))))))))

  connected-Keeps : (r : Result ConnectionMetadata) → Keeps (Inv E Heard) (connected E r) Any
  connected-Keeps (ok c) =
      modify-Keeps E Heard _
        (λ s p. record { cells = p.cells; written = p.written; unflagged = refl })
  connected-Keeps (err e) = raise-Keeps e
  connected-Keeps spent = lift-Keeps spent tt

  once-Keeps : (b : Bool) → Keeps (Inv E Heard) (connect_once E b) Any
  once-Keeps true = pure-Keeps tt tt
  once-Keeps false = >>=-Keeps (modify-Keeps E Heard _ (λ s p. p)) (λ _ _.
      >>=-Keeps (try-Keeps E Heard (call-Keeps E Heard E.connect_controller))
        (λ r _. connected-Keeps r))

  written-Keeps : (m : Message) (r : Result (Unit {0})) → Keeps (Inv E Heard) (written E m r) Any
  written-Keeps m (ok u) = pure-Keeps _ tt
  written-Keeps m (err e) = >>=-Keeps (get-Keeps E Heard (λ s. s.client)) (λ c _.
      >>=-Keeps (send_error-Keeps E Heard c m e)
        (λ _ _. >>=-Keeps (remove_message-Keeps E Heard m.request_id) (λ _ _. pure-Keeps _ tt)))
  written-Keeps m spent = lift-Keeps spent tt

  in_flight-Keeps :
      (m : Message) (q : ℕ) (c : Option ModelProxy)
      → Vouched E Heard m
      → Keeps (Inv E Heard) (write_in_flight E m q c) Any
  in_flight-Keeps m q none v = pure-Keeps _ tt
  in_flight-Keeps m q (some c) v =
      >>=-Keeps (try-Keeps E Heard (write_controller-Keeps E Heard m v)) (λ r _. written-Keeps m r)

  forward-Keeps :
      (m : Message) (q : ℕ) → Vouched E Heard m → Keeps (Inv E Heard) (forward E m q) Any
  unfolding forward
  forward-Keeps m q v =
      >>=-Keeps (add_message-Keeps E Heard q)
        (λ _ _. >>=-Keeps (get-Keeps E Heard (λ s. s.controller)) (λ c _. in_flight-Keeps m q c v))

  error-Keeps :
      (m : Message) (e : Error) (o : Outcome)
      → Keeps (Inv E Heard) (get E (λ s. s.client) >>= λ c. send_error E c m e >> pure o) Any
  error-Keeps m e o =
      >>=-Keeps (get-Keeps E Heard (λ s. s.client))
        (λ c _. >>=-Keeps (send_error-Keeps E Heard c m e) (λ _ _. pure-Keeps o tt))

  routed-Keeps :
      (m : Message) (r : Result Routed) → Good (Vetted m) r → Keeps (Inv E Heard) (routed E m r) Any
  routed-Keeps m (err e) g = error-Keeps m e next
  routed-Keeps m (ok (to_source response)) g =
      >>=-Keeps (send_message-Keeps E Heard response) (λ _ _. pure-Keeps _ tt)
  routed-Keeps m (ok (to_destination login)) g =
      >>=-Keeps (allocate-Keeps E Heard login g)
        (λ q _. >>=-Keeps (add_login_message-Keeps E Heard q) (λ _ _. forward-Keeps login q g))
  routed-Keeps m (ok unhandled) g =
      let v : Vouched E Heard m = λ a b. absurd (g b) in
      >>=-Keeps (allocate-Keeps E Heard m v) (λ q _. forward-Keeps m q v)
  routed-Keeps m spent g = lift-Keeps spent tt

  by_facade-Keeps : (m : Message) → Keeps (Inv E Heard) (by_facade E m) Any
  by_facade-Keeps m =
      if-Keeps (m.type == admin_type)
        (λ _. >>=-Keeps (try-Keeps E Heard (facade-Keeps m)) (λ r g. routed-Keeps m r g))
        (λ other.
          let v : Vouched E Heard m =
            λ a b. absurd (false≢true (sym other ∙ (eq_iff m.type admin_type).1 a)) in
          >>=-Keeps (allocate-Keeps E Heard m v) (λ q _. forward-Keeps m q v))

  proceed-Keeps : (m : Message) (r : Result (Unit {0})) → Keeps (Inv E Heard) (proceed E m r) Any
  proceed-Keeps m (ok u) = >>=-Keeps (get-Keeps E Heard (λ s. s.client)) (λ c _.
      >>=-Keeps (logged-Keeps E Heard (audit-Keeps E Heard c m false)) (λ _ _. by_facade-Keeps m))
  proceed-Keeps m (err e) = error-Keeps m e _
  proceed-Keeps m spent = lift-Keeps spent tt

  pub client_message-Keeps : (m : Message) → Keeps (Inv E Heard) (client_message E m) Any
  unfolding client_message make_controller_connection
  client_message-Keeps m =
      >>=-Keeps
        (try-Keeps E Heard
          (>>=-Keeps (get-Keeps E Heard (λ s. s.connect_controller_done)) (λ b _. once-Keeps b)))
        (λ r _. proceed-Keeps m r)
