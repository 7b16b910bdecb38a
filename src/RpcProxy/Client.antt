-- ===== src/RpcProxy/Client.antt =====
-- clientProxy: messages from the client, and the login that JIMM does in the client's place.
use jimm.Prelude.{
  String, Bool, true, false, ℕ, Option, none, some, ◌==◌, ◌||◌, string_eq, if◌then◌else◌,
}
use jimm.Errors.{
  plain, wrapf, codef, coded, code_not_supported, code_redirect, Result, ok, err, spent,
}
use jimm.Exec.{pure, raise, lift, ◌>>=◌, ◌>>◌}
use jimm.Ofga.Names.{JujuTag, user_kind, model_kind}
use jimm.User.{User}
use jimm.RpcProxy.{
  Message, Helpers, ConnectionMetadata, ControllerDetails, ModelProxy, Outcome, next, stop,
  nil_dereference, Act, call, get, of_result, try, modify, logged, write_controller, allocate,
  add_login_message, add_message, remove_message,
}
use jimm.RpcProxy.Messages.{audit_log_message, send_error, send_message}

abbrev pub admin_type : String
admin_type = "Admin"

abbrev pub login_request : String
login_request = "Login"

-- Where a message of the Admin facade goes: back to the client, on to the controller, or neither.
pub data Routed : Type 0 where
  to_source : Message → Routed
  to_destination : Message → Routed
  unhandled : Routed

abbrev agent_kind : String → Bool
agent_kind kind = kind == model_kind || (kind == "machine" || kind == "unit")

module _ (E : Helpers) where
  -- controllerLoginMessageFnc
  unfoldable pub controller_login_message : Message → User → Act E Routed
  controller_login_message m user = do
    jwt ← call E (E.make_login_token user)
    params ← of_result E (
        E.encode_login_request (record {
          auth_tag = E.tag_text (record { kind = user_kind; id = user.name });
          token = E.base64 jwt;
          others = "";
        }))
    pure (
        to_destination
          (record m { type = admin_type; request = login_request; version = 3; params = params }))

  abbrev pub redirect : Result ControllerDetails → Act E Routed
  redirect (ok details) = raise (
      coded code_redirect "redirection to alternative server required"
        (some (E.redirect_info_map details)))
  redirect (err e) = raise (wrapf "failed to get redirect info" e)
  redirect spent = lift spent

  -- The switch on the tag of a Login request.
  abbrev pub by_tag : Message → JujuTag → Act E Routed
  by_tag m tag =
      if tag.kind == user_kind
      then (if tag.id == E.anonymous_username
          then (modify E (λ s. record s { client = record s.client { anonymous_login = true } })
              >> pure (to_destination m))
          else raise (codef code_not_supported "JIMM does not support login from old clients"))
      else if agent_kind tag.kind
      then (try E (call E E.get_redirect_info) >>= redirect)
      else raise (plain "unsupported login request")

  abbrev pub tagged : Message → Result JujuTag → Act E Routed
  tagged m (ok tag) = by_tag m tag
  tagged m (err e) = raise (plain "invalid user tag")
  tagged m spent = lift spent

  unfoldable pub handle_legacy_login : Message → Act E Routed
  unfolding codef wrapf
  handle_legacy_login m = do
    request ← of_result E (E.decode_login_request m.params)
    tagged m (E.parse_tag request.auth_tag)

  abbrev pub respond : Message → Result String → Act E Routed
  respond m text = of_result E text >>= λ t. pure (to_source (record m { response = some t }))

  unfoldable pub login_device_request : Message → Act E Routed
  login_device_request m = do
    device ← call E E.login_device
    modify E (λ s. record s { client = record s.client { device_oauth_response = some device } })
    respond m (E.encode_login_device_response device.verification_uri device.user_code)

  unfoldable pub get_device_session_token_request : Message → Act E Routed
  get_device_session_token_request m = do
    device ← get E (λ s. s.client.device_oauth_response)
    token ← call E (E.get_device_session_token device)
    respond m (E.encode_session_token_response token)

  unfoldable pub login_with_session_token_request : Message → Act E Routed
  unfolding controller_login_message
  login_with_session_token_request m = do
    token ← of_result E (E.decode_session_token_request m.params)
    user ← call E (E.login_with_session_token token)
    controller_login_message m user

  unfoldable pub login_with_client_credentials_request : Message → Act E Routed
  unfolding controller_login_message
  login_with_client_credentials_request m = do
    credentials ← of_result E (E.decode_client_credentials_request m.params)
    user ← call E (E.login_client_credentials credentials.0 credentials.1)
    controller_login_message m user

  unfoldable pub login_with_session_cookie_request : Message → Act E Routed
  unfolding controller_login_message
  login_with_session_cookie_request m = do
    user ← call E (E.login_with_session_cookie E.authenticated_identity_id)
    controller_login_message m user

  unfoldable pub handle_admin_facade : Message → Act E Routed
  unfolding login_device_request get_device_session_token_request login_with_session_token_request
      login_with_client_credentials_request login_with_session_cookie_request handle_legacy_login
  handle_admin_facade m =
      if m.request == "LoginDevice"
      then login_device_request m
      else if m.request == "GetDeviceSessionToken"
      then get_device_session_token_request m
      else if m.request == "LoginWithSessionToken"
      then login_with_session_token_request m
      else if m.request == "LoginWithClientCredentials"
      then login_with_client_credentials_request m
      else if m.request == "LoginWithSessionCookie"
      then login_with_session_cookie_request m
      else if m.request == login_request
      then handle_legacy_login m
      else pure unhandled

  -- The function that sync.Once runs.
  abbrev pub connected : Result ConnectionMetadata → Act E (Unit {0})
  connected (ok c) = modify E (λ s. record s {
    client = record s.client {
      model_name = c.model_name;
      model_uuid = c.model_uuid;
      model_migration_mode = c.migration_mode;
    };
    controller = some (record {
      anonymous_login = false;
      model_name = c.model_name;
      model_uuid = "";
      model_migration_mode = c.migration_mode;
      device_oauth_response = none;
    });
    controller_open = true;
  })
  connected (err e) = raise e
  connected spent = lift spent

  abbrev pub connect_once : Bool → Act E (Unit {0})
  connect_once true = pure tt
  connect_once false = do
    modify E (λ s. record s { connect_controller_done = true })
    try E (call E E.connect_controller) >>= connected

  unfoldable pub make_controller_connection : Act E (Unit {0})
  make_controller_connection = get E (λ s. s.connect_controller_done) >>= connect_once

  abbrev pub written : Message → Result (Unit {0}) → Act E Outcome
  written m (ok u) = pure next
  written m (err e) = do
    client ← get E (λ s. s.client)
    send_error E client m e
    remove_message E m.request_id
    pure next
  written m spent = lift spent

  -- The end of the loop: the message is in flight and goes to the controller. A dst that is nil has
  -- no lock to take.
  abbrev pub write_in_flight : Message → ℕ → Option ModelProxy → Act E Outcome
  write_in_flight m p none = pure nil_dereference
  write_in_flight m p (some c) = try E (write_controller E m) >>= written m

  unfoldable pub forward : Message → ℕ → Act E Outcome
  unfolding add_message send_error remove_message
  forward m p = do
    add_message E p
    connection ← get E (λ s. s.controller)
    write_in_flight m p connection

  abbrev pub routed : Message → Result Routed → Act E Outcome
  routed m (err e) = do client ← get E (λ s. s.client); send_error E client m e; pure next
  routed m (ok (to_source response)) = send_message E response >> pure next
  routed m (ok (to_destination login)) = do
    p ← allocate E login
    add_login_message E p
    forward login p
  routed m (ok unhandled) = allocate E m >>= forward m
  routed m spent = lift spent

  abbrev pub by_facade : Message → Act E Outcome
  by_facade m =
      if m.type == admin_type
      then (try E (handle_admin_facade m) >>= routed m)
      else (allocate E m >>= forward m)

  abbrev pub proceed : Message → Result (Unit {0}) → Act E Outcome
  proceed m (ok u) = do
    client ← get E (λ s. s.client)
    logged E (audit_log_message E client m false)
    by_facade m
  proceed m (err e) = do
    client ← get E (λ s. s.client)
    send_error E client m e
    pure (stop (some (wrapf "failed to connect to controller" e)))
  proceed m spent = lift spent

  -- The body of the loop of start, for a message that was read.
  unfoldable pub client_message : Message → Act E Outcome
  unfolding make_controller_connection handle_admin_facade send_error send_message forward
      audit_log_message add_login_message wrapf
  client_message m = try E (make_controller_connection) >>= proceed m
