-- ===== src/Http.antt =====
-- What the HTTP handlers (services/*/delivery/http) share: pkg/err_msg, and the answers that echo
-- writes. The client's headers and the binding of the request to a struct are parameters.
use brain_blitz.Prelude.{ℕ, String, Option, none, some, str_eq, if◌then◌else◌}
use brain_blitz.Errors.{GoError, HttpBody, to_http_json}

-- The value that is written as JSON: a response, the body of an error, an errmsg.ErrorResponse with
-- a message only, or a text.
pub data Content {ℓ} (A : Type ℓ) : Type ℓ where
  content : A → Content A
  error_body : HttpBody → Content A
  error_response : String → Content A
  plain : String → Content A

-- `ctx.JSON(status, body)`
pub record Response {ℓ} (A : Type ℓ) : Type ℓ where
  pub status : ℕ
  pub body : Content A

-- `ctx.Bind(&req)`: from what the struct held to what it holds, with the error.
abbrev pub Bind : Type 0 → Type 0
Bind A = A → A × Option GoError

-- http.Header: the value of a key, and `Set`. `Get` answers the empty text where there is none.
abbrev pub Header : Type 0
Header = String → Option String

abbrev pub set_header : String → String → Header → Header
set_header name value h n = if str_eq n name then some value else h n

abbrev pub get_header : Header → String → String
get_header h name = elim (h name) [ none ↦ "" | some value ↦ value ]

-- What the handlers do with an error of the service.
abbrev pub error_answer : {A : Type 0} → GoError → Response A
unfolding to_http_json
error_answer e = let (msg, code) = to_http_json e in record { status = code; body = error_body msg }

abbrev pub message_missing_x_user_id : String
message_missing_x_user_id = "Invalid user id"

abbrev pub invalid_user_name_or_password_err_msg : String
invalid_user_name_or_password_err_msg = "invalid username or password"

abbrev pub invalid_body : String
invalid_body = "Invalid request body"

abbrev pub invalid_category : String
invalid_category = "invalid category"
