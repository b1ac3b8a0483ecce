-- ===== src/User/Delivery.antt =====
-- services/user_app/delivery/http/handler.go: sign up, login and profile.
use brain_blitz.Prelude.{none, some, [], str_eq, if◌then◌else◌}
use brain_blitz.Errors.{status_ok, status_bad_request}
use brain_blitz.User.Email.{Bytes}
use brain_blitz.User.Service.{
  SignUpRequest, LoginRequest, LoginResponse, ProfileResponse, Reply, ok, err, Environment, sign_up,
  login, profile,
}
use brain_blitz.Http.{
  content, plain, error_response, Response, Bind, Header, get_header, error_answer,
  message_missing_x_user_id, invalid_user_name_or_password_err_msg,
}

-- What each handler does with the service's answer.
abbrev pub answer : {A : Type 0} → Reply A → Response A
answer (err e) = error_answer e
answer (ok res) = record { status = status_ok; body = content res }

abbrev pub bad_credentials : {A : Type 0} → Response A
bad_credentials = record {
  status = status_bad_request;
  body = error_response invalid_user_name_or_password_err_msg;
}

module _ {S : Type 0} (env : Environment S) where
  unfoldable pub http_sign_up : Bind SignUpRequest → S → Response Bytes × S
  unfolding sign_up
  http_sign_up bind s =
      let (req, failed) = bind (record { email = []; password = [] }) in
      let (res, s') = sign_up env req s in
      elim failed [ some e ↦ (bad_credentials, s) | none ↦ (answer res, s') ]

  unfoldable pub http_login : Bind LoginRequest → S → Response LoginResponse
  unfolding login
  http_login bind s =
      let (req, failed) = bind (record { email = []; password = [] }) in
      elim failed [ some e ↦ bad_credentials | none ↦ answer (login env req s) ]

  unfoldable pub http_profile : Header → S → Response ProfileResponse
  unfolding profile
  http_profile header s =
      let id = get_header header "X-User-ID" in
      if str_eq id ""
      then record { status = status_bad_request; body = plain message_missing_x_user_id }
      else answer (profile env id s)
