-- ===== src/RpcProxy/Controller.antt =====
-- controllerProxy: messages from the controller, and the login that is done again where the
-- controller asks for more permissions.
use jimm.Prelude.{
  String, Bool, true, ℕ, Option, none, some, List, ◌==◌, ◌||◌, ◌&&◌, string_eq, if◌then◌else◌,
}
use jimm.Errors.{
  Error, wrapf, codef, code_unauthorized, code_model_migrating, Value, Result, ok, err, spent,
}
use jimm.Exec.{pure, raise, lift, ◌>>=◌, ◌>>◌}
use jimm.RpcProxy.{
  Message, Helpers, ModelProxy, Outcome, next, stop, Act, call, get, of_result, try, modify, logged,
  write_client, write_controller, store, remove_message, get_message,
}
use jimm.RpcProxy.Messages.{
  audit_log_message, send_error, check_permissions_required, modify_controller_response,
}

-- dbmodel.MigrationModeMigrateInternal and dbmodel.MigrationModeExporting
abbrev pub migrating : ModelProxy → Bool
migrating p =
    p.model_migration_mode == "migrating-internally" || p.model_migration_mode == "exporting"

module _ (E : Helpers) where
  -- addJWT: the params of the cell are written over.
  unfoldable pub add_jwt : ℕ → List (String × Value) → Act E (Unit {0})
  add_jwt p permissions = do
    m ← get E (λ s. s.cell p)
    request ← of_result E (E.decode_login_request m.params)
    jwt ← call E (E.make_token permissions)
    params ← of_result E (E.encode_login_request (record request { token = E.base64 jwt }))
    modify E (λ s. record s { cell = store E p (record (s.cell p) { params = params }) s.cell })

  abbrev pub login_again : List (String × Value) → Option ℕ → Act E (Unit {0})
  login_again permissions none = raise (codef code_unauthorized "Haven't received login yet")
  login_again permissions (some p) = do
    add_jwt p permissions
    login ← get E (λ s. s.cell p)
    write_controller E login

  unfoldable pub redo_login : ModelProxy → List (String × Value) → Act E (Unit {0})
  unfolding add_jwt codef
  redo_login c permissions =
      if c.anonymous_login
      then raise (codef code_unauthorized "Anonymous login does not support re-authentication")
      else get E (λ s. s.login_message) >>= login_again permissions

  unfoldable pub handle_error : ModelProxy → Message → Error → Act E (Unit {0})
  unfolding send_error remove_message
  handle_error c m e = do send_error E c m e; remove_message E m.request_id

  abbrev pub resend : Option ℕ → Act E (Unit {0})
  resend none = pure tt
  resend (some p) = do request ← get E (λ s. s.cell p); logged E (write_controller E request)

  abbrev pub after_login : ModelProxy → Message → Result (Unit {0}) → Act E (Option Message)
  after_login c m (err e) = handle_error c m e >> pure none
  after_login c m (ok u) = do request ← get_message E m.request_id; resend request; pure none
  after_login c m spent = lift spent

  abbrev pub if_required :
      ModelProxy → Message → Result (Option (List (String × Value))) → Act E (Option Message)
  if_required c m (err e) = handle_error c m e >> pure none
  if_required c m (ok none) = pure (some m)
  if_required c m (ok (some permissions)) = try E (redo_login c permissions) >>= after_login c m
  if_required c m spent = lift spent

  -- The message that is to go on to the client, if one is.
  unfoldable pub process_controller_errors : ModelProxy → Message → Act E (Option Message)
  unfolding check_permissions_required redo_login handle_error get_message
  process_controller_errors c m =
      if migrating c && m.error_code == code_unauthorized
      then pure (
          some (record m {
            error_code = code_model_migrating;
            error = "model is finishing migration, please retry later";
          }))
      else if_required c m (check_permissions_required E m)

  abbrev pub delivered : Result (Unit {0}) → Act E Outcome
  delivered (ok u) = pure next
  delivered (err e) = pure (stop (some (wrapf "error writing message to client" e)))
  delivered spent = lift spent

  abbrev pub modified : ModelProxy → Message → Result Message → Act E Outcome
  modified c m (err e) =
      handle_error c m e >> pure (stop (some (wrapf "error modifying controller response" e)))
  modified c m (ok response) = do
    remove_message E response.request_id
    logged E (audit_log_message E c response true)
    try E (write_client E response) >>= delivered
  modified c m spent = lift spent

  abbrev pub deliver : ModelProxy → Option Message → Act E Outcome
  deliver c none = pure next
  deliver c (some m) = modified c m (modify_controller_response E m)

  -- The body of the loop of start, for a message that was read.
  unfoldable pub controller_message : ModelProxy → Message → Act E Outcome
  unfolding process_controller_errors modify_controller_response handle_error remove_message
      audit_log_message wrapf
  controller_message c m = process_controller_errors c m >>= deliver c
