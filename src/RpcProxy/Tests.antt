-- ===== src/RpcProxy/Tests.antt =====
-- Connections with a controller and a login service that always answer.
use jimm.Prelude.{◌≡◌, refl, String, true, false, none, some, List, [], ◌∷◌}
use jimm.Errors.{ok}
use jimm.Exec.{pure, ◌>>=◌}
use jimm.Ofga.Names.{user_kind}
use jimm.User.{new_user}
use jimm.RpcProxy.{
  Message, next, new_message, Helpers, ModelProxy, Proxy, call, get, of_result, try, modify,
  allocate, add_login_message, add_message, without_id,
}
use jimm.RpcProxy.Messages.{audit_log_message}
use jimm.RpcProxy.Client.{
  admin_type, login_request, client_message, make_controller_connection, handle_admin_facade,
  handle_legacy_login, forward,
}
use jimm.RpcProxy.Controller.{controller_message, redo_login, login_again}
use jimm.RpcProxy.Session.{Event, client_sends, controller_sends, new_session, step, run}
use jimm.Exec.Triples.{Good}
use jimm.RpcProxy.Refusals.{Masked, access_required_masked}
use jimm.RpcProxy.Authority.{redo_login_unguarded}

-- A login request is written as its tag and its token, and read as its tag.
abbrev lab : Helpers
lab = record {
  World = Unit;
  connect_controller = pure (record {
    controller_uuid = "c1";
    model_name = "lab";
    model_uuid = "m1";
    migration_mode = "";
  });
  client_write_json = λ m. pure tt;
  controller_write_json = λ m. pure tt;
  audit_log = λ e. pure tt;
  get_redirect_info = pure (record { addresses = []; ca_cert = "" });
  login_device = pure (record { verification_uri = "uri"; user_code = "123"; device_code = "x" });
  get_device_session_token = λ d. pure "session";
  login_client_credentials = λ id secret. pure (new_user id);
  login_with_session_token = λ token. pure (new_user token);
  login_with_session_cookie = λ id. pure (new_user id);
  authenticated_identity_id = "";
  make_login_token = λ user. pure user.name;
  make_token = λ permissions. pure "later";
  get_user = λ w. "";
  decode_login_request = λ s. ok (record { auth_tag = s; token = ""; others = "" });
  encode_login_request = λ r. ok r.token;
  decode_session_token_request = λ s. ok s;
  decode_client_credentials_request = λ s. ok (s, s);
  encode_login_device_response = λ uri code. ok uri;
  encode_session_token_response = λ token. ok token;
  decode_error_results = λ s. ok [];
  encode_error_results = λ results m code info. ok "";
  decode_object = λ s. ok [];
  encode_object = λ o. ok "";
  base64 = λ s. s;
  parse_tag = λ s. ok (record { kind = user_kind; id = s });
  tag_text = λ t. t.id;
  anonymous_username = "jujuanonymous";
  redirect_info_map = λ d. [];
}

abbrev login : String → String → Message
login request params = record (new_message 1) {
  type = admin_type;
  request = request;
  params = params;
}

abbrev refused : Message
refused = record (new_message 1) { error_code = "access required"; error_info = some [] }

abbrev talk : List Event
talk =
    client_sends (login "LoginWithSessionToken" "alice")
    ∷ controller_sends refused
    ∷ client_sends (login login_request "jujuanonymous")
    ∷ []

abbrev nameless : List Event
nameless = client_sends (login login_request "jujuanonymous") ∷ []

abbrev other_side : ModelProxy
other_side = record {
  anonymous_login = false;
  model_name = "lab";
  model_uuid = "";
  model_migration_mode = "";
  device_oauth_response = none;
}

-- After an anonymous login the flag is set on the client's side.
nameless_flag : (run lab nameless (new_session lab tt)).client.anonymous_login ≡ true
unfolding run new_session step client_message make_controller_connection get try modify call
    allocate add_login_message forward add_message handle_admin_facade handle_legacy_login of_result
    without_id audit_log_message
nameless_flag = refl

redo_login_unguarded_example :
    redo_login lab other_side [] (new_session lab tt)
    ≡ (get lab (λ (t : Proxy lab). t.login_message) >>= login_again lab []) (new_session lab tt)
unfolding run new_session step client_message make_controller_connection get try modify call
    allocate add_login_message forward add_message handle_admin_facade handle_legacy_login of_result
    without_id audit_log_message
redo_login_unguarded_example =
    redo_login_unguarded lab nameless tt other_side refl [] (new_session lab tt)

abbrev start : Proxy lab
start = run lab nameless (new_session lab tt)

access_required_masked_example :
    Masked lab refused start.to_client (controller_message lab other_side refused start).1.to_client
    × Good (λ o. o ≡ next) (controller_message lab other_side refused start).0
access_required_masked_example =
    access_required_masked lab refused start.to_client other_side [] start refl refl refl
