-- ===== src/Auth/Service.antt =====
-- services/auth_app/service: service.go, helper.go, validator.go and param.go. The JWT library, the
-- validation library and Go's order of iteration over a map are a parameter; the random id of a
-- token and the time are arguments.
pub mod Laws
use brain_blitz.Prelude.{
  ℕ, String, Bool, true, false, Option, none, some, List, [], ◌∷◌, any, push, str_eq, if◌then◌else◌,
}
use brain_blitz.Prelude.Int.{ℤ, pos}
use brain_blitz.Errors.{GoError, app, wrap, err_invalid_input, err_internal, err_unauthorized}
use brain_blitz.Game.Entity.{Duration}
use brain_blitz.Game.Time.{milliseconds}

pub record CreateTokenRequest : Type 0 where
  pub key : String
  pub value : String

-- A token is what the JWT library makes.
pub record CreateTokenResponse (Token : Type 0) : Type 0 where
  pub token : Token
  pub expire_time : ℤ

pub record ValidateTokenRequest (Token : Type 0) : Type 0 where
  pub token : Token
  pub keys : List String

pub record ValidateTokenResponse : Type 0 where
  pub valid : Bool
  pub additional_data : List CreateTokenRequest

pub data Claim : Type 0 where
  text_claim : String → Claim
  number_claim : ℤ → Claim

-- `jwt.MapClaims`
abbrev pub Claims : Type 0
Claims = String → Option Claim

abbrev pub with_claim : Claims → String → Claim → Claims
with_claim claims key value k = if str_eq k key then some value else claims k

-- The loop of toJWTClaims: of two values for a key the later one stays.
unfoldable pub add_claims : Claims → List CreateTokenRequest → Claims
add_claims claims [] = claims
add_claims claims (value ∷ items) =
    add_claims (with_claim claims value.key (text_claim value.value)) items

unfoldable pub to_jwt_claims : List CreateTokenRequest → Claims
unfolding add_claims
to_jwt_claims items = add_claims (λ key. none) items

-- The loop of toMapData over the keys: those whose claim is a text.
unfoldable pub to_map_data : List String → Claims → List CreateTokenRequest
to_map_data [] claims = []
to_map_data (key ∷ keys) claims =
    let result = to_map_data keys claims in
    elim (claims key) [
      | none ↦ result
      | some claim ↦ elim claim [
        | text_claim value ↦ record { key = key; value = value } ∷ result
        | number_claim n ↦ result
      ]
    ]

abbrev pub has_key : String → List String → Bool
has_key key = any (λ k. str_eq k key)

-- The keys of a set that is filled in this order.
unfoldable pub key_set : List String → List String → List String
key_set done [] = done
key_set done (key ∷ keys) = key_set (if has_key key done then done else push done key) keys

abbrev pub additional_data : List String
additional_data = "id" ∷ "role" ∷ []

pub record Config : Type 0 where
  pub secret_key : String
  pub access_token_expire_time : Duration
  pub refresh_token_expire_time : Duration

pub data Reply {ℓ} (A : Type ℓ) : Type ℓ where
  ok : A → Reply A
  err : GoError → Reply A

-- `validation.Required` on a text, a token and a list, HS256 signing, and `jwt.Parse` with the key at a
-- time in seconds.
pub record Environment (Token : Type 0) : Type 0 where
  pub required : String → Option GoError
  pub required_token : Token → Option GoError
  pub required_data : List CreateTokenRequest → Option GoError
  pub sign : Claims → String → Reply Token
  pub parse : Token → String → ℕ → Reply Claims
  pub iteration : List String → List String

-- The first error: which one it is does not show in the wrapped error.
abbrev pub first_error : Option GoError → Option GoError → Option GoError
first_error none later = later
first_error (some e) later = some e

module _ {Token : Type 0} (env : Environment Token) where
  unfoldable pub validate_items : List CreateTokenRequest → Option GoError
  validate_items [] = none
  validate_items (item ∷ items) =
      first_error (env.required item.key)
        (first_error (env.required item.value) (validate_items items))

  -- ValidateCreateAccessTokenRequest, and ValidateCreateRefreshTokenRequest, which has the same text.
  unfoldable pub validate_create_token_request : List CreateTokenRequest → Option GoError
  unfolding validate_items
  validate_create_token_request items = first_error (env.required_data items) (validate_items items)

  -- The claims of a token: the duration itself is its expiry.
  unfoldable pub issued : List CreateTokenRequest → Duration → String → ℕ → Claims
  unfolding to_jwt_claims
  issued items expire jwt_id now =
      with_claim
        (with_claim (with_claim (to_jwt_claims items) "exp" (number_claim expire)) "jti"
          (text_claim jwt_id))
        "iat" (number_claim (pos now))

  -- What CreateAccessToken and CreateRefreshToken both do.
  unfoldable pub create_token :
      String
      → String
      → Duration
      → List CreateTokenRequest
      → String
      → ℕ
      → Reply (CreateTokenResponse Token)
  unfolding validate_create_token_request issued wrap err_invalid_input err_internal
  create_token op secret_key expire items jwt_id now = elim (validate_create_token_request items) [
    | some e ↦ err (app (wrap op (some e) err_invalid_input))
    | none ↦ elim (env.sign (issued items expire jwt_id now) secret_key) [
      | err e ↦ err (app (wrap op (some e) err_internal))
      | ok token ↦ ok (record { token = token; expire_time = milliseconds expire })
    ]
  ]

  unfoldable pub create_access_token :
      Config → List CreateTokenRequest → String → ℕ → Reply (CreateTokenResponse Token)
  unfolding create_token
  create_access_token config =
      create_token "service.CreateAccessToken" config.secret_key config.access_token_expire_time

  unfoldable pub create_refresh_token :
      Config → List CreateTokenRequest → String → ℕ → Reply (CreateTokenResponse Token)
  unfolding create_token
  create_refresh_token config =
      create_token "service.CreateRefreshToken" config.secret_key config.refresh_token_expire_time

  unfoldable pub validate_token :
      Config → ValidateTokenRequest Token → ℕ → Reply ValidateTokenResponse
  unfolding to_map_data key_set wrap err_invalid_input err_unauthorized
  validate_token config request now = elim (env.required_token request.token) [
    | some e ↦ err (app (wrap "service.ValidateToken" (some e) err_invalid_input))
    | none ↦ elim (env.parse request.token config.secret_key now) [
      | err e ↦ err (app (wrap "service.ValidateToken" (some e) err_unauthorized))
      | ok claims ↦ ok (record {
        valid = true;
        additional_data =
            to_map_data (env.iteration (key_set (key_set [] additional_data) request.keys)) claims;
      })
    ]
  ]
