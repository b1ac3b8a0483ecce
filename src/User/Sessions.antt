-- ===== src/User/Sessions.antt =====
-- The user service over the auth service: what its TokenClient is (adapter/auth), and what becomes of
-- a token that Login gave (services/auth_app/delivery/http). The gRPC connection is a parameter.
pub mod Laws
use brain_blitz.Prelude.{ℕ, String, Option, none, some, List, map}
use brain_blitz.Prelude.Int.{ℤ}
use brain_blitz.Errors.{GoError}
use brain_blitz.User.Service.{ClaimValue, id_text, text_value, Reply, ok, err, Environment}
use brain_blitz.Auth.Service
use brain_blitz.Auth.Service.{Config}
use brain_blitz.Auth.Client.{
  CreateTokenRequest, TokenMsg, IssuedToken, Stub, get_access_token, get_refresh_token,
}
use brain_blitz.Auth.Delivery.{GrpcReply, grpc_get_access_token, grpc_get_refresh_token}

-- `accessTokenResponse, err := s.grpcClient.GetAccessToken(...)`, of which the token is used.
abbrev pub token_of : IssuedToken × Option GoError → Reply String
token_of (response, none) = ok response.token
token_of (response, some e) = err e

-- What the auth server and the connection to it are: the libraries of the server, its configuration,
-- its random ids and its clock, what the client's stub gets of a handler's answer, and
-- strconv.FormatInt.
pub record AuthServer (S : Type 0) : Type 0 where
  pub libraries : Service.Environment String
  pub config : Config
  pub uuid : S → String
  pub clock : S → ℕ
  pub carry : GrpcReply IssuedToken → Option IssuedToken × Option GoError
  pub format_int : ℤ → String

module _ {S : Type 0} (server : AuthServer S) where
  abbrev pub claim_request : String × ClaimValue → CreateTokenRequest
  claim_request (key, id_text id) = record { key = key; value = server.format_int id }
  claim_request (key, text_value value) = record { key = key; value = value }

  abbrev pub access_stub : S → Stub
  unfolding grpc_get_access_token
  access_stub s req =
      server.carry
        (grpc_get_access_token server.libraries server.config req (server.uuid s) (server.clock s))

  abbrev pub refresh_stub : S → Stub
  unfolding grpc_get_refresh_token
  refresh_stub s req =
      server.carry
        (grpc_get_refresh_token server.libraries server.config req (server.uuid s) (server.clock s))

  -- The user service's environment with this client as its TokenClient.
  unfoldable pub with_auth_client : Environment S → Environment S
  unfolding get_access_token get_refresh_token access_stub refresh_stub
  with_auth_client env = record env {
    get_access_token =
        λ claims s. token_of (get_access_token (access_stub s) (map claim_request claims));
    get_refresh_token =
        λ claims s. token_of (get_refresh_token (refresh_stub s) (map claim_request claims));
  }
