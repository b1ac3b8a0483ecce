-- ===== src/Errors.antt =====
-- pkg/err_app/errors.go and pkg/err_msg: the application's error values, and how a Go `error`
-- becomes an HTTP or a gRPC status. A Go error is an AppError, a plain text (errors.New), or a
-- text that wraps another error (fmt.Errorf with %w). The loggers are not modelled.
pub mod Laws
use brain_blitz.Prelude.{ℕ, String, Option, none, some}

pub record AppError : Type 0 where
  pub op : String
  pub code : String
  pub message : String
  pub http_status : ℕ
  pub grpc_status : ℕ

pub data GoError : Type 0 where
  app : AppError → GoError
  text : String → GoError
  wrapped : String → GoError → GoError

-- The values of net/http and google.golang.org/grpc/codes that the source names.
abbrev pub status_ok : ℕ
status_ok = 200

abbrev pub status_bad_request : ℕ
status_bad_request = 400

abbrev pub status_unauthorized : ℕ
status_unauthorized = 401

abbrev pub status_forbidden : ℕ
status_forbidden = 403

abbrev pub status_not_found : ℕ
status_not_found = 404

abbrev pub status_internal_server_error : ℕ
status_internal_server_error = 500

abbrev pub codes_invalid_argument : ℕ
codes_invalid_argument = 3

abbrev pub codes_not_found : ℕ
codes_not_found = 5

abbrev pub codes_permission_denied : ℕ
codes_permission_denied = 7

abbrev pub codes_internal : ℕ
codes_internal = 13

abbrev pub codes_unauthenticated : ℕ
codes_unauthenticated = 16

unfoldable pub new : String → String → String → ℕ → ℕ → AppError
new op code message http_status grpc_status = record {
  op = op;
  code = code;
  message = message;
  http_status = http_status;
  grpc_status = grpc_status;
}

-- `Error()` of each kind of error.
unfoldable pub error_text : GoError → String
error_text (app e) = e.message
error_text (text s) = s
error_text (wrapped s e) = s

-- `Wrap`: the text of the cause goes to the log only, so it does not show in the result.
unfoldable pub wrap : String → Option GoError → AppError → AppError
wrap op err app_err = record app_err { op = op }

-- `errors.As` with an `*AppError` target: the first one on the chain of wrapped errors.
unfoldable pub as_app_error : GoError → Option AppError
as_app_error (app e) = some e
as_app_error (text s) = none
as_app_error (wrapped s e) = as_app_error e

unfoldable pub err_not_found : AppError
unfolding new
err_not_found = new "default" "NOT_FOUND" "Resource not found" status_not_found codes_not_found

unfoldable pub err_internal : AppError
unfolding new
err_internal =
    new "default" "INTERNAL_ERROR" "something went wrong" status_internal_server_error
      codes_internal

unfoldable pub err_invalid_input : AppError
unfolding new
err_invalid_input =
    new "default" "INVALID_INPUT" "invalid input" status_bad_request codes_invalid_argument

unfoldable pub err_unauthorized : AppError
unfolding new
err_unauthorized =
    new "default" "UNAUTHORIZED" "Invalid Token" status_unauthorized codes_unauthenticated

unfoldable pub err_invalid_login : AppError
unfolding new
err_invalid_login =
    new "default" "INVALID_LOGIN" "invalid username or password" status_forbidden
      codes_permission_denied

unfoldable pub normalize : Option GoError → Option AppError
unfolding as_app_error wrap err_internal
normalize none = none
normalize (some err) = elim (as_app_error err) [
  | some app_err ↦ some app_err
  | none ↦ some (wrap "NORMALIZED" (some err) err_internal)
]

-- The body is an HTTPErrMessage, which holds the message twice, or a bare text.
pub data HttpBody : Type 0 where
  err_message : String → String → HttpBody
  bare : String → HttpBody

unfoldable pub to_http_json : GoError → HttpBody × ℕ
unfolding as_app_error error_text
to_http_json err = elim (as_app_error err) [
  | some app_err ↦ (err_message app_err.message app_err.message, app_err.http_status)
  | none ↦ (bare (error_text err), status_internal_server_error)
]

unfoldable pub to_grpc_json : GoError → String × ℕ
unfolding as_app_error error_text
to_grpc_json err = elim (as_app_error err) [
  | some app_err ↦ (app_err.message, app_err.grpc_status)
  | none ↦ (error_text err, codes_internal)
]
