-- ===== src/Tests/Tokens.antt =====
-- The auth service at a concrete input.
use mathlib.Core.List.Perm
use brain_blitz.Prelude.{
  ℕ, ◌*◌, ◌<◌, ◌≤◌, ◌^◌, String, ◌≡◌, sym, ◌∙◌, refl, ap, true, Option, none, some, List, [], ◌∷◌,
  arith, ltb, str_eq, str_eq_refl, if◌then◌else◌,
}
use brain_blitz.Prelude.Int.{pos, negsuc}
use brain_blitz.Errors.{text}
use brain_blitz.Auth.Service.{
  CreateTokenRequest, ValidateTokenResponse, Claim, Claims, text_claim, number_claim, Config, ok,
  err, Environment, add_claims, issued, create_access_token, validate_token,
}
use brain_blitz.Auth.Service.Laws.{times_value, validate_token_round_trip}

abbrev until : Option Claim → ℕ
until none = 0
until (some (text_claim s)) = 0
until (some (number_claim (pos n))) = n
until (some (number_claim (negsuc n))) = 0

-- Tokens that are the claims and the key.
abbrev environment : Environment (Claims × String)
environment = record {
  required = λ s. none;
  required_token = λ t. none;
  required_data = λ items. none;
  sign = λ claims key. ok (claims, key);
  parse = λ (claims, k) key now.
      if str_eq k key
      then (if ltb now (until (claims "exp")) then ok claims else err (text "token is expired"))
      else err (text "signature is invalid");
  iteration = λ l. l;
}

signed_is_parsed :
    (claims : Claims) (key : String) (token : Claims × String) (n now : ℕ)
    → environment.sign claims key ≡ ok token
    → claims "exp" ≡ some (number_claim (pos n))
    → now < n
    → environment.parse token key now ≡ ok claims
signed_is_parsed claims key token n now signed lifetime early =
    let same : (claims, key) ≡ token = cc in
    let own : environment.parse (claims, key) key now ≡ ok claims =
      rw (str_eq_refl key, lifetime) (ground arith) in
    ap (λ t. environment.parse t key now) (sym same) ∙ own

-- Ten minutes, in nanoseconds.
abbrev config : Config
config = record {
  secret_key = "secret";
  access_token_expire_time = pos (600 * 1000000000);
  refresh_token_expire_time = pos (6000 * 1000000000);
}

abbrev items : List CreateTokenRequest
items = record { key = "id"; value = "7" } ∷ record { key = "role"; value = "user" } ∷ []

abbrev claims : Claims
claims = issued environment items config.access_token_expire_time "uuid" 1000

issued_is_parsed :
    (items : List CreateTokenRequest) (jwt_id key : String) (token : Claims × String)
    (made n now : ℕ)
    → let claims = issued environment items (pos n) jwt_id made in
      claims "nbf" ≡ none
      → made ≤ 2 ^ 53
      → n ≤ 2 ^ 53
      → environment.sign claims key ≡ ok token
      → now < n
      → environment.parse token key now ≡ ok claims
unfolding issued
issued_is_parsed items jwt_id key token made n now no_nbf small_made small signed early =
    signed_is_parsed (issued environment items (pos n) jwt_id made) key token n now signed refl
      early

-- A token of ten minutes is accepted a million seconds after it was made.
validate_token_round_trip_example :
    (answer : ValidateTokenResponse) × (validate_token environment config
        (record { token = (claims, "secret"); keys = [] })
        1001000
      ≡ ok answer)
    × (answer.valid ≡ true)
    × (times_value "id" "7" answer.additional_data ≡ 1)
unfolding create_access_token issued add_claims
validate_token_round_trip_example =
    validate_token_round_trip environment issued_is_parsed (λ l. Perm.refl l) config items "uuid"
      1000 (600 * 1000000000) 1001000
      (record { token = (claims, "secret"); expire_time = pos 600000 }) [] "id" "7" refl refl
      (omega arith) (omega arith) (omega arith) refl refl refl refl
