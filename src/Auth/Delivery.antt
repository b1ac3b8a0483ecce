-- ===== src/Auth/Delivery.antt =====
-- services/auth_app/delivery: the gRPC handlers (grpc/handler.go) and the HTTP handlers
-- (http/handler.go) of the auth service. A token is a text here. The id of a token and the time are
-- arguments, as in the service.
pub mod Laws
pub mod Tokens
use brain_blitz.Prelude.{
  ℕ, String, Bool, true, false, Option, none, some, List, [], ◌∷◌, map, str_eq, if◌then◌else◌,
}
use brain_blitz.Errors.{GoError, to_grpc_json, status_ok, status_bad_request, status_unauthorized}
use brain_blitz.Auth.Client.{TokenMsg, IssuedToken}
use brain_blitz.Auth.Service.{
  CreateTokenRequest, CreateTokenResponse, ValidateTokenRequest, ValidateTokenResponse, Config,
  Reply, ok, err, Environment, create_access_token, create_refresh_token, validate_token,
}
use brain_blitz.Http.{
  Content, content, error_response, Response, Bind, Header, set_header, get_header, error_answer,
  invalid_body,
}

-- A handler's answer: a message, or `status.Errorf` with a message and a code.
pub data GrpcReply {ℓ} (A : Type ℓ) : Type ℓ where
  reply : A → GrpcReply A
  failure : String → ℕ → GrpcReply A

abbrev pub request_of_msg : TokenMsg → CreateTokenRequest
request_of_msg d = record { key = d.key; value = d.value }

-- What both gRPC handlers do with the service's answer.
unfoldable pub grpc_reply : Reply (CreateTokenResponse String) → GrpcReply IssuedToken
unfolding to_grpc_json
grpc_reply (err e) = let (msg, code) = to_grpc_json e in failure msg code
grpc_reply (ok res) = reply (record { token = res.token; expire_time = res.expire_time })

-- What both HTTP handlers that make tokens do with it.
abbrev pub http_reply : Reply (CreateTokenResponse String) → Response (CreateTokenResponse String)
http_reply (err e) = error_answer e
http_reply (ok response) = record { status = status_ok; body = content response }

-- The response header that a claim is copied to.
abbrev pub claim_header : String → Option String
claim_header key =
    if str_eq key "id"
    then some "X-User-ID"
    else if str_eq key "role"
    then some "X-User-Role"
    else none

abbrev pub set_present : Option String → String → Header → Header
set_present none value h = h
set_present (some name) value h = set_header name value h

abbrev pub set_claim : CreateTokenRequest → Header → Header
set_claim d h = set_present (claim_header d.key) d.value h

-- The loop over the claims of a valid token.
unfoldable pub set_claims : List CreateTokenRequest → Header → Header
set_claims [] h = h
set_claims (d ∷ items) h = set_claims items (set_claim d h)

abbrev pub not_valid : Response ValidateTokenResponse
not_valid = record {
  status = status_unauthorized;
  body = content (record { valid = false; additional_data = [] });
}

abbrev pub empty_request : ValidateTokenRequest String
empty_request = record { token = ""; keys = [] }

-- `json.Marshal` of the claims; where it fails the error is logged only.
abbrev pub set_auth_data :
    (List CreateTokenRequest → Option String) → List CreateTokenRequest → Header → Header
set_auth_data marshal items h = elim (marshal items) [
  | none ↦ h
  | some result ↦ set_header "X-Auth-Data" result h
]

module _ (env : Environment String) (config : Config) where
  unfoldable pub grpc_get_access_token : List TokenMsg → String → ℕ → GrpcReply IssuedToken
  unfolding create_access_token grpc_reply
  grpc_get_access_token req jwt_id now =
      grpc_reply (create_access_token env config (map request_of_msg req) jwt_id now)

  unfoldable pub grpc_get_refresh_token : List TokenMsg → String → ℕ → GrpcReply IssuedToken
  unfolding create_refresh_token grpc_reply
  grpc_get_refresh_token req jwt_id now =
      grpc_reply (create_refresh_token env config (map request_of_msg req) jwt_id now)

  unfoldable pub http_create_access_token :
      Bind (List CreateTokenRequest) → String → ℕ → Response (CreateTokenResponse String)
  unfolding create_access_token
  http_create_access_token bind jwt_id now =
      let (request, failed) = bind [] in
      elim failed [
        | some e ↦ record { status = status_bad_request; body = error_response invalid_body }
        | none ↦ http_reply (create_access_token env config request jwt_id now)
      ]

  unfoldable pub http_create_refresh_token :
      Bind (List CreateTokenRequest) → String → ℕ → Response (CreateTokenResponse String)
  unfolding create_refresh_token
  http_create_refresh_token bind jwt_id now =
      let (request, failed) = bind [] in
      elim failed [
        | some e ↦ record { status = status_bad_request; body = error_response invalid_body }
        | none ↦ http_reply (create_refresh_token env config request jwt_id now)
      ]

  -- The request's header and the response's.
  unfoldable pub http_validate_token :
      (List CreateTokenRequest → Option String)
      → Header
      → Bind (ValidateTokenRequest String)
      → ℕ
      → Header
      → Response ValidateTokenResponse × Header
  unfolding validate_token set_claims
  http_validate_token marshal header bind now h =
      let authorization = get_header header "Authorization" in
      let (request, failed) = bind empty_request in
      if str_eq authorization "" then (not_valid, h) else elim failed [
        | some e ↦ (not_valid, h)
        | none ↦ elim (validate_token env config (record request { token = authorization }) now) [
          | err e ↦ (error_answer e, h)
          | ok response ↦ (
            record { status = status_ok; body = content response },
            if response.valid
                then set_auth_data marshal response.additional_data
                    (set_claims response.additional_data h)
                else h,
          )
        ]
      ]
