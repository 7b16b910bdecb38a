-- ===== src/Errors.antt =====
-- internal/errors/errors.go: error values with a code, chains of wrapped errors, and results. The
-- texts of formatted messages are kept as far as the program reads them.
use Prim.Native.String.{◌++◌}
use jimm.Prelude.{List, String, Option, none, some, ◌==◌, string_eq, if◌then◌else◌}

-- An entry of a map[string]any, as far as the program looks at its type.
pub data Value : Type 0 where
  string_value : String → Value
  other_value : Value

-- A Go `error` that is not nil, by the way it was built.
pub data Error : Type 0 where
  -- errors.New, or a foreign error with no code and nothing to unwrap
  plain : String → Error
  -- fmt.Errorf with a %w verb: the whole message, and what Unwrap gives
  wrap : String → Error → Error
  -- *errors.Error with Err == nil: its Code, Message and Info
  coded : String → String → Option (List (String × Value)) → Error
  -- *errors.Error with an underlying Err
  coded_wrap : String → String → Option (List (String × Value)) → Error → Error

-- An operation that may fail; `spent` is a loop of the model whose fuel ran out.
pub data Result {ℓ} (A : Type ℓ) : Type ℓ where
  ok : A → Result A
  err : Error → Result A
  spent : Result A

-- Error
unfoldable pub message : Error → String
message (plain m) = m
message (wrap m e) = m
message (coded code m info) = if m == "" then (if code == "" then "unknown error" else code) else m
message (coded_wrap code m info e) = let inner = message e in if m == "" then inner else m

-- ErrorCode: the first code in the chain that is not empty
unfoldable pub error_code : Error → String
error_code (plain m) = ""
error_code (wrap m e) = error_code e
error_code (coded code m info) = code
error_code (coded_wrap code m info e) =
    let inner = error_code e in if code == "" then inner else code

-- ErrorInfo: the first info in the chain that is not nil
unfoldable pub error_info : Error → Option (List (String × Value))
error_info (plain m) = none
error_info (wrap m e) = error_info e
error_info (coded code m info) = info
error_info (coded_wrap code m (some info) e) = some info
error_info (coded_wrap code m none e) = error_info e

-- fmt.Errorf("context: %w", e)
unfoldable pub wrapf : String → Error → Error
unfolding message
wrapf context e = wrap (context ++ ": " ++ message e) e

-- Codef with no error among its arguments: the formatted text is the underlying error
unfoldable pub codef : String → String → Error
codef code m = coded_wrap code "" none (plain m)

-- Codef with "%w": the given error is the underlying one, behind a wrapper of the same text
unfoldable pub codef_wrap : String → Error → Error
unfolding message
codef_wrap code e = coded_wrap code "" none (wrap (message e) e)

abbrev pub code_unauthorized : String
code_unauthorized = "unauthorized access"

abbrev pub code_bad_request : String
code_bad_request = "bad request"

abbrev pub code_not_found : String
code_not_found = "not found"

abbrev pub code_failed_to_parse_tuple_key : String
code_failed_to_parse_tuple_key = "failed to parse tuple"

abbrev pub code_openfga_request_failed : String
code_openfga_request_failed = "failed request to OpenFGA"

abbrev pub code_not_supported : String
code_not_supported = "not supported"

abbrev pub code_redirect : String
code_redirect = "redirection required"

abbrev pub code_model_migrating : String
code_model_migrating = "model migrating"
