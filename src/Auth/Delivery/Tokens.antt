-- ===== src/Auth/Delivery/Tokens.antt =====
-- What the HTTP validation of a token answers where the token was made here.
use mathlib.Core.List.{Perm}
use brain_blitz.Prelude.{
  ℕ, ◌<◌, String, ◌≡◌, refl, ◌∙◌, ap, inl, true, false, ◌||◌, Option, none, some, List, arith,
  str_eq, if◌then◌else◌, leb, Option-cases, inr,
}
use brain_blitz.Prelude.Weights.{weigh-Perm}
use brain_blitz.Prelude.Int.{pos}
use brain_blitz.Errors.{status_ok}
use brain_blitz.Auth.Client.{IssuedToken}
use brain_blitz.Auth.Service.{
  CreateTokenRequest, CreateTokenResponse, ValidateTokenRequest, Claims, text_claim, number_claim,
  Config, Reply, ok, err, Environment, issued, create_access_token, validate_token, has_key,
  additional_data, to_map_data,
}
use brain_blitz.Auth.Service.Laws.{
  wanted, wanted_once, has_key_times, issued_by_create, validate_run,
}
use brain_blitz.Auth.Delivery.{
  GrpcReply, reply, failure, grpc_reply, http_validate_token, empty_request, set_auth_data,
  set_claims,
}
use brain_blitz.Auth.Delivery.Laws.{HasHeader, set_claims_lem}
use brain_blitz.Http.{content, Header, Bind, get_header}

-- The documented behaviour of the libraries: a required text that is not empty is valid, and an
-- iteration over a map takes its keys in some order.
pub record IsReliable (env : Environment String) : Type 0 where
  pub nonempty : (token : String) → str_eq token "" ≡ false → env.required_token token ≡ none
  pub any_order : (l : List String) → Perm (env.iteration l) l

-- The documented behaviour of the JWT library on these claims: it reads back what it signed with the
-- same key, until the time of the claim "exp", in seconds.
abbrev pub ReadsBack : Environment String → Claims → Type 0
ReadsBack env claims =
    (key token : String) (n now : ℕ)
    → env.sign claims key ≡ ok token
    → claims "exp" ≡ some (number_claim (pos n))
    → now < n
    → env.parse token key now ≡ ok claims

abbrev reply_token : GrpcReply IssuedToken → String
reply_token (reply m) = m.token
reply_token (failure msg code) = ""

pub grpc_reply-reply :
    (a : Reply (CreateTokenResponse String)) (m : IssuedToken)
    → grpc_reply a ≡ reply m
    → (res : CreateTokenResponse String) × (a ≡ ok res) × (res.token ≡ m.token)
unfolding grpc_reply
grpc_reply-reply (ok res) m same = (res, refl, ap reply_token same)
grpc_reply-reply (err e) m same = absurd (ground arith)

module _ (env : Environment String) (reliable : IsReliable env) (config : Config) where
  -- A key that is looked for is in the list, in any order of iteration.
  asked_is_iterated :
      (key : String) (keys : List String)
      → (has_key key additional_data || has_key key keys) ≡ true
      → has_key key (env.iteration (wanted keys)) ≡ true
  asked_is_iterated key keys asked =
      has_key_times key (env.iteration (wanted keys))
      ∙ ap (leb 1) (
          weigh-Perm (λ k. if str_eq k key then 1 else 0) (reliable.any_order (wanted keys))
          ∙ wanted_once key keys asked)

  set_auth_data_keeps :
      (marshal : List CreateTokenRequest → Option String) (items : List CreateTokenRequest)
      (h : Header) (name : String)
      → str_eq name "X-Auth-Data" ≡ false
      → set_auth_data marshal items h name ≡ h name
  set_auth_data_keeps marshal items h name other = elim (Option-cases (marshal items)) [
    | inl failed ↦ rw (failed, set_auth_data) refl
    | inr (result, made) ↦ rw (made, set_auth_data, other) refl
  ]

  http_validate_run :
      (marshal : List CreateTokenRequest → Option String) (header h : Header)
      (bind : Bind (ValidateTokenRequest String)) (now : ℕ) (items : List CreateTokenRequest)
      → str_eq (get_header header "Authorization") "" ≡ false
      → (bind empty_request).1 ≡ none
      → validate_token env config
          (record { token = get_header header "Authorization"; keys = (bind empty_request).0.keys })
          now
        ≡ ok (record { valid = true; additional_data = items })
      → http_validate_token env config marshal header bind now h ≡ (
        record {
          status = status_ok;
          body = content (record { valid = true; additional_data = items });
        },
        set_auth_data marshal items (set_claims items h),
      )
  unfolding http_validate_token
  http_validate_run marshal header h bind now items present bound run =
      rw (present, bound, run) refl

  pub validated_header :
      (items : List CreateTokenRequest) (jwt_id : String) (made n now : ℕ)
      (response : CreateTokenResponse String) (key name value : String)
      (marshal : List CreateTokenRequest → Option String) (header h : Header)
      (bind : Bind (ValidateTokenRequest String))
      → ReadsBack env (issued env items config.access_token_expire_time jwt_id made)
      → config.access_token_expire_time ≡ pos n
      → now < n
      → create_access_token env config items jwt_id made ≡ ok response
      → str_eq response.token "" ≡ false
      → issued env items config.access_token_expire_time jwt_id made key ≡ some (text_claim value)
      → (has_key key additional_data || has_key key (bind empty_request).0.keys) ≡ true
      → HasHeader key name
      → str_eq name "X-Auth-Data" ≡ false
      → get_header header "Authorization" ≡ response.token
      → (bind empty_request).1 ≡ none
      → let (answer, h') = http_validate_token env config marshal header bind now h in
        (answer.status ≡ status_ok) × (h' name ≡ some value)
  unfolding http_validate_token issued
  validated_header items jwt_id made n now response key name value marshal header h bind jwt
        lifetime early created nonempty has asked own other sent bound =
      let claims = issued env items config.access_token_expire_time jwt_id made in
      let parsed =
        jwt config.secret_key response.token n now
          (issued_by_create env config items jwt_id made response created)
          (ap (λ d. some (number_claim d)) lifetime) early in
      let run =
        validate_run env config (bind empty_request).0.keys response.token now claims
          (reliable.nonempty response.token nonempty) parsed in
      let ks = env.iteration (wanted (bind empty_request).0.keys) in
      let set =
        set_claims_lem key name value own claims has ks h
          (inl (asked_is_iterated key (bind empty_request).0.keys asked)) in
      let answered =
        http_validate_run marshal header h bind now (to_map_data ks claims)
          (ap (λ t. str_eq t "") sent ∙ nonempty) bound
          (ap
              (λ t.
                validate_token env config (record { token = t; keys = (bind empty_request).0.keys })
                  now)
              sent
            ∙ run) in
      (
        ap (λ a. a.0.status) answered,
        ap (λ a. a.1 name) answered
            ∙ set_auth_data_keeps marshal (to_map_data ks claims) _ name other
            ∙ set,
      )
