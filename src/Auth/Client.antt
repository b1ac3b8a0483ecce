-- ===== src/Auth/Client.antt =====
-- adapter/auth: the client of the auth service that the user service calls. The generated gRPC stub
-- is a parameter: its call answers a message, where it is not nil, and an error.
use brain_blitz.Prelude.{String, Option, none, some, List, map}
use brain_blitz.Prelude.Int.{ℤ, pos}
use brain_blitz.Errors.{GoError}

pub record CreateTokenRequest : Type 0 where
  pub key : String
  pub value : String

-- The protobuf message of a key and its value.
pub record TokenMsg : Type 0 where
  pub key : String
  pub value : String

-- CreateAccessTokenResponse, and CreateRefreshTokenResponse, whose token is the refresh token; also the
-- protobuf messages of the two.
pub record IssuedToken : Type 0 where
  pub token : String
  pub expire_time : ℤ

abbrev pub token_msg : CreateTokenRequest → TokenMsg
token_msg d = record { key = d.key; value = d.value }

abbrev pub no_token : IssuedToken
no_token = record { token = ""; expire_time = pos 0 }

-- What both calls make of the stub's answer.
abbrev pub received : Option IssuedToken × Option GoError → IssuedToken × Option GoError
received (res, some e) = (no_token, some e)
received (none, none) = (no_token, none)
received (some res, none) = (record { token = res.token; expire_time = res.expire_time }, none)

abbrev pub Stub : Type 0
Stub = List TokenMsg → Option IssuedToken × Option GoError

unfoldable pub get_access_token : Stub → List CreateTokenRequest → IssuedToken × Option GoError
get_access_token call request = received (call (map token_msg request))

unfoldable pub get_refresh_token : Stub → List CreateTokenRequest → IssuedToken × Option GoError
get_refresh_token call request = received (call (map token_msg request))
