-- ===== src/RpcProxy.antt =====
-- internal/rpcproxy/rpcproxy.go and message.go: the proxy between a Juju client and the controller of
-- a model. Both directions share one state; messages are cells, since the login message and the
-- requests in flight are pointers. Each message is handled in one step.
pub mod Messages
pub mod Demands
pub mod Client
pub mod Controller
pub mod Session
pub mod Sealed
pub mod FromClient
pub mod Authority
pub mod Refusals
mod Tests
use jimm.Prelude.{
  ℕ, suc, String, Bool, true, false, not, Option, none, some, List, [], ◌∷◌, ◌==◌, string_eq,
  nat_eq, if◌then◌else◌,
}
use jimm.Errors.{Error, Value, Result, ok, err, spent}
use jimm.Exec.{Exec, pure, lift, attempt, ◌>>=◌, ◌>>◌}
use jimm.Ofga.Names.{JujuTag}
use jimm.User.{User}

-- message; the time of its arrival is left out. An empty `params` is a nil one.
pub record Message : Type 0 where
  pub request_id : ℕ
  pub type : String
  pub version : ℕ
  pub id : String
  pub request : String
  pub params : String
  pub error : String
  pub error_code : String
  pub error_info : Option (List (String × Value))
  pub response : Option String

abbrev pub new_message : ℕ → Message
new_message request_id = record {
  request_id = request_id;
  type = "";
  version = 0;
  id = "";
  request = "";
  params = "";
  error = "";
  error_code = "";
  error_info = none;
  response = none;
}

-- jujuparams.LoginRequest: the fields in use, and the others as one text
pub record LoginRequest : Type 0 where
  pub auth_tag : String
  pub token : String
  pub others : String

pub record ControllerDetails : Type 0 where
  pub addresses : List String
  pub ca_cert : String

-- jujuparams.Error of a bulk result
pub record Failure : Type 0 where
  pub code : String
  pub info : List (String × Value)

pub record DeviceAuthResponse : Type 0 where
  pub verification_uri : String
  pub user_code : String
  pub device_code : String

-- WebsocketConnectionWithMetadata, less the connection itself
pub record ConnectionMetadata : Type 0 where
  pub controller_uuid : String
  pub model_name : String
  pub model_uuid : String
  pub migration_mode : String

-- dbmodel.AuditLogEntry, less its time
pub record AuditLogEntry : Type 0 where
  pub message_id : ℕ
  pub identity_tag : String
  pub model : String
  pub facade_name : String
  pub facade_method : String
  pub facade_version : ℕ
  pub is_response : Bool
  pub object_id : String
  pub errors : String
  pub params : String

-- What the proxy calls: ProxyHelpers, the sockets, and the JSON, base64 and names libraries.
pub record Helpers : Type 1 where
  pub World : Type 0
  pub connect_controller : Exec World ConnectionMetadata
  pub client_write_json : Message → Exec World (Unit {0})
  pub controller_write_json : Message → Exec World (Unit {0})
  pub audit_log : AuditLogEntry → Exec World (Unit {0})
  pub get_redirect_info : Exec World ControllerDetails
  -- LoginService
  pub login_device : Exec World DeviceAuthResponse
  pub get_device_session_token : Option DeviceAuthResponse → Exec World String
  pub login_client_credentials : String → String → Exec World User
  pub login_with_session_token : String → Exec World User
  pub login_with_session_cookie : String → Exec World User
  pub authenticated_identity_id : String
  -- TokenGenerator; GetUser gives the text of the tag
  pub make_login_token : User → Exec World String
  pub make_token : List (String × Value) → Exec World String
  pub get_user : World → String
  -- encoding/json, by the type that is read or written
  pub decode_login_request : String → Result LoginRequest
  pub encode_login_request : LoginRequest → Result String
  pub decode_session_token_request : String → Result String
  pub decode_client_credentials_request : String → Result (String × String)
  pub encode_login_device_response : String → String → Result String
  pub encode_session_token_response : String → Result String
  pub decode_error_results : String → Result (List (Option Failure))
  -- the text of the results with one more error, by message, code and info
  pub encode_error_results :
      List (Option Failure) → String → String → Option (List (String × Value)) → Result String
  pub decode_object : String → Result (List (String × String))
  pub encode_object : List (String × String) → Result String
  pub base64 : String → String
  -- juju/names, and api.AnonymousUsername
  pub parse_tag : String → Result JujuTag
  pub tag_text : JujuTag → String
  pub anonymous_username : String
  -- RedirectErrorInfo.AsMap
  pub redirect_info_map : ControllerDetails → List (String × Value)

-- modelProxy: the fields that a proxy has for itself, not by a pointer.
pub record ModelProxy : Type 0 where
  pub anonymous_login : Bool
  pub model_name : String
  pub model_uuid : String
  pub model_migration_mode : String
  pub device_oauth_response : Option DeviceAuthResponse

-- How the handling of a message ends: with the next one, with the end of that direction, or with a
-- write to a controller connection that is nil.
pub data Outcome : Type 0 where
  next : Outcome
  stop : Option Error → Outcome
  nil_dereference : Outcome

module _ (E : Helpers) where
  -- The state of a connection: inflightMsgs and the cells that it points to, clientProxy,
  -- controllerProxy once there is one, and what was written to either side, the last first.
  pub record Proxy : Type 0 where
    pub world : E.World
    pub cell : ℕ → Message
    pub fresh : ℕ
    pub login_message : Option ℕ
    pub messages : List (ℕ × ℕ)
    pub connect_controller_done : Bool
    pub client : ModelProxy
    pub controller : Option ModelProxy
    pub client_open : Bool
    pub controller_open : Bool
    pub to_controller : List Message
    pub to_client : List Message

  abbrev pub Act : Type 0 → Type 0
  Act A = Exec Proxy A

  unfoldable pub call : {A : Type 0} → Exec E.World A → Act A
  call m s = let (r, w) = m s.world in (r, record s { world = w })

  unfoldable pub get : {A : Type 0} → (Proxy → A) → Act A
  get f s = (ok (f s), s)

  unfoldable pub modify : (Proxy → Proxy) → Act (Unit {0})
  modify f s = (ok tt, f s)

  unfoldable pub of_result : {A : Type 0} → Result A → Act A
  of_result = lift

  -- a call whose error is tested
  unfoldable pub try : {A : Type 0} → Act A → Act (Result A)
  try = attempt

  -- src.writeJson and dst.writeJson of the client's side
  abbrev pub write_client : Message → Act (Unit {0})
  write_client m = do
    modify (λ s. record s { to_client = m ∷ s.to_client })
    call (E.client_write_json m)

  abbrev pub write_controller : Message → Act (Unit {0})
  write_controller m = do
    modify (λ s. record s { to_controller = m ∷ s.to_controller })
    call (E.controller_write_json m)

  -- an error that is only logged
  abbrev pub logged : {A : Type 0} → Act A → Act (Unit {0})
  logged m = try m >>= λ r. pure tt

  abbrev pub store : ℕ → Message → (ℕ → Message) → ℕ → Message
  store p m cells q = if q == p then m else cells q

  -- a pointer to a message that was read
  unfoldable pub allocate : Message → Act ℕ
  allocate m s = (ok s.fresh, record s { cell = store s.fresh m s.cell; fresh = suc s.fresh })

  unfoldable pub add_login_message : ℕ → Act (Unit {0})
  add_login_message p = modify (λ s. record s { login_message = some p })

  unfoldable pub without_id : ℕ → List (ℕ × ℕ) → List (ℕ × ℕ)
  without_id k [] = []
  without_id k ((j, p) ∷ l) = let rest = without_id k l in if j == k then rest else (j, p) ∷ rest

  unfoldable pub find_id : ℕ → List (ℕ × ℕ) → Option ℕ
  find_id k [] = none
  find_id k ((j, p) ∷ l) = let rest = find_id k l in if j == k then some p else rest

  -- addMessage: the pointer goes into the map under the id of its message
  unfoldable pub add_message : ℕ → Act (Unit {0})
  unfolding without_id
  add_message p = modify (λ s. record s {
    messages = ((s.cell p).request_id, p) ∷ without_id (s.cell p).request_id s.messages;
  })

  unfoldable pub remove_message : ℕ → Act (Unit {0})
  remove_message k = modify (λ s. record s { messages = without_id k s.messages })

  unfoldable pub get_message : ℕ → Act (Option ℕ)
  get_message k = get (λ s. find_id k s.messages)
