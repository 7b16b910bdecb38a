-- ===== src/RpcProxy/Messages.antt =====
-- The parts of rpcproxy.go that only read or write a message: error responses, the permissions that
-- a response asks for, and the audit log.
use jimm.Prelude.{
  String, Bool, true, false, Option, none, some, List, [], ◌∷◌, ◌==◌, string_eq, put, select, not,
  if◌then◌else◌,
}
use jimm.Errors.{
  Error, plain, message, error_code, error_info, Value, string_value, other_value, Result, ok, err,
  spent,
}
use jimm.Exec.{◌>>=◌, ◌>>◌}
use jimm.RpcProxy.{
  Message, new_message, Helpers, ModelProxy, Failure, AuditLogEntry, Act, call, get, of_result,
  logged, write_client,
}

abbrev pub access_required_error_code : String
access_required_error_code = "access required"

unfoldable pub create_err_response : Error → Message → Message
create_err_response e req = record (new_message req.request_id) {
  error_info = error_info e;
  error = message e;
  error_code = error_code e;
}

abbrev pub or_empty : Option (List (String × Value)) → List (String × Value)
or_empty none = []
or_empty (some m) = m

-- The inner loop of checkPermissionsRequired, over the info of one error.
unfoldable pub gather_info :
    List (String × Value) → Option (List (String × Value)) → Result (Option (List (String × Value)))
gather_info [] required = ok required
gather_info ((k, string_value v) ∷ info) required =
    gather_info info (some (put k (string_value v) (or_empty required)))
gather_info ((k, other_value) ∷ info) required = err (plain "unknown permission level")

abbrev pub then_gather : {A B : Type 0} → Result A → (A → Result B) → Result B
then_gather (ok a) f = f a
then_gather (err e) f = err e
then_gather spent f = spent

-- The outer loop, over the results of a bulk request.
unfoldable pub gather :
    List (Option Failure) → Option (List (String × Value)) → Result (Option (List (String × Value)))
gather [] required = ok required
gather (none ∷ results) required = gather results required
gather (some e ∷ results) required =
    let rest = gather results required in
    if e.code == access_required_error_code
    then then_gather (gather_info e.info required) (gather results)
    else rest

module _ (E : Helpers) where
  abbrev pub bulk_permissions :
      Result (List (Option Failure)) → Result (Option (List (String × Value)))
  bulk_permissions (ok results) = gather results none
  bulk_permissions r = ok none

  abbrev pub in_response : Option String → Result (Option (List (String × Value)))
  in_response none = ok none
  in_response (some r) = if r == "" then ok none else bulk_permissions (E.decode_error_results r)

  unfoldable pub check_permissions_required : Message → Result (Option (List (String × Value)))
  check_permissions_required m =
      if m.error_code == access_required_error_code then ok m.error_info else in_response m.response

  abbrev without_servers : List (String × String) → List (String × String)
  without_servers = select (λ e. not (e.0 == "servers"))

  -- json.Unmarshal of a nil response fails, as it does on an empty text.
  abbrev pub response_text : Message → String
  response_text m = elim m.response [ none ↦ "" | some r ↦ r ]

  -- The block of servers is deleted from the response.
  unfoldable pub modify_controller_response : Message → Result Message
  modify_controller_response m = then_gather (E.decode_object (response_text m)) (λ response.
      then_gather (E.encode_object (without_servers response))
        (λ text. ok (record m { response = some text })))

  audit_entry : ModelProxy → String → Message → Bool → AuditLogEntry
  audit_entry p user m is_response = record {
    message_id = m.request_id;
    identity_tag = user;
    model = p.model_name;
    facade_name = m.type;
    facade_method = m.request;
    facade_version = m.version;
    is_response = is_response;
    object_id = m.id;
    errors = "";
    params = "";
  }

  audited_results : Option String → Result (List (Option Failure))
  audited_results none = ok []
  audited_results (some r) = E.decode_error_results r

  -- The params of a request are kept as their text is; nil ones have the text null.
  unfoldable pub audit_log_message : ModelProxy → Message → Bool → Act E (Unit {0})
  unfolding audited_results audit_entry
  audit_log_message p m false = do
    user ← get E (λ s. E.get_user s.world)
    call E (
        E.audit_log (record (audit_entry p user m false) {
          params = if m.params == "" then "null" else m.params;
        }))
  audit_log_message p m true = do
    user ← get E (λ s. E.get_user s.world)
    results ← of_result E (audited_results m.response)
    errors ← of_result E (E.encode_error_results results m.error m.error_code m.error_info)
    call E (E.audit_log (record (audit_entry p user m true) { errors = errors }))

  -- sendError to the client, for a request that is not nil
  unfoldable pub send_error : ModelProxy → Message → Error → Act E (Unit {0})
  unfolding create_err_response audit_log_message
  send_error p req e = do
    logged E (write_client E (create_err_response e req))
    logged E (audit_log_message p (create_err_response e req) true)

  -- sendMessage with no response object
  unfoldable pub send_message : Message → Act E (Unit {0})
  send_message request =
      logged E
        (write_client E (record (new_message request.request_id) { response = request.response }))
