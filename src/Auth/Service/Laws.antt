-- ===== src/Auth/Service/Laws.antt =====
-- What a token that was made here says when it is validated.
use mathlib.Core.List.{Perm}
use brain_blitz.Prelude.Weights.{weigh, weigh-Perm}
use brain_blitz.Prelude.{
  ℕ, ◌+◌, ◌<◌, ◌≤◌, ◌^◌, String, ◌≡◌, refl, sym, ◌∙◌, ap, inl, inr, true, ◌||◌, none, some, List,
  [], ◌∷◌, arith, push, str_eq, str_eq_refl, eq_iff, if◌then◌else◌, Bool-cases, Option-cases, leb,
}
use brain_blitz.Prelude.Int.{pos}
use brain_blitz.Auth.Service.{
  CreateTokenRequest, CreateTokenResponse, ValidateTokenResponse, text_claim, number_claim, Claims,
  to_map_data, has_key, key_set, additional_data, Config, ok, Environment, issued, create_token,
  create_access_token, validate_token,
}

-- How often a key stands in a list of keys, and how often a response has this value for it.
abbrev pub times_key : String → List String → ℕ
times_key key = weigh (λ k. if str_eq k key then 1 else 0)

abbrev pub times_value : String → String → List CreateTokenRequest → ℕ
times_value key value =
    weigh (λ d. if str_eq d.key key then (if str_eq d.value value then 1 else 0) else 0)

to_map_data_times :
    (key value : String) (keys : List String) (claims : Claims)
    → claims key ≡ some (text_claim value)
    → times_value key value (to_map_data keys claims) ≡ times_key key keys
unfolding to_map_data
to_map_data_times key value [] claims has = refl
to_map_data_times key value (k ∷ keys) claims has = elim (Bool-cases (str_eq k key)) [
  | inl own ↦
      let here : claims k ≡ some (text_claim value) = ap claims ((eq_iff k key).0 own) ∙ has in
      ground (
        arith,
        here,
        own,
        eq_iff k key,
        str_eq_refl value,
        to_map_data_times key value keys claims has,
      )
  | inr other ↦ elim (Option-cases (claims k)) [
    | inl absent ↦ ground (arith, absent, other, to_map_data_times key value keys claims has)
    | inr (text_claim v, some_text) ↦
        ground (arith, some_text, other, to_map_data_times key value keys claims has)
    | inr (number_claim n, some_number) ↦
        ground (arith, some_number, other, to_map_data_times key value keys claims has)
  ]
]

pub has_key_times :
    (key : String) (done : List String) → has_key key done ≡ leb 1 (times_key key done)
has_key_times key [] = refl
has_key_times key (k ∷ done) = ground (arith, has_key_times key done)

times_push :
    (key k : String) (done : List String)
    → times_key key (push done k) ≡ times_key key done + (if str_eq k key then 1 else 0)
times_push key k [] = omega arith
times_push key k (j ∷ done) = omega (arith, times_push key k done)

-- A key of the set stands in it once, as one that was there did.
key_set_once :
    (key : String) (done keys : List String)
    → times_key key (key_set done keys) ≡ (
        if leb 1 (times_key key done)
        then times_key key done
        else if has_key key keys
        then 1
        else 0)
unfolding key_set
key_set_once key done [] = ground arith
key_set_once key done (k ∷ keys) =
    let present = has_key_times k done in
    let as_is = key_set_once key done keys in
    let pushed = key_set_once key (push done k) keys in
    let more = times_push key k done in
    elim (Bool-cases (str_eq k key)) [
      | inl own ↦
          let same : times_key k done ≡ times_key key done =
            ap (λ j. times_key j done) ((eq_iff k key).0 own) in
          elim (Bool-cases (has_key k done)) [
            | inl old ↦ rw old (ground (arith, own, present, as_is, same))
            | inr new ↦ rw new (ground (arith, own, present, pushed, more, same))
          ]
      | inr other ↦ elim (Bool-cases (has_key k done)) [
        | inl old ↦ rw old (ground (arith, other, as_is))
        | inr new ↦ rw new (ground (arith, other, pushed, more))
      ]
    ]

-- The keys that a validation looks for: the id, the role, and those that are asked for.
abbrev pub wanted : List String → List String
unfolding key_set
wanted keys = key_set (key_set [] additional_data) keys

pub wanted_once :
    (key : String) (keys : List String)
    → (has_key key additional_data || has_key key keys) ≡ true
    → times_key key (wanted keys) ≡ 1
unfolding wanted
wanted_once key keys asked =
    ground (
      arith,
      key_set_once key (key_set [] additional_data) keys,
      key_set_once key [] additional_data,
    )

module _ {Token : Type 0} (env : Environment Token) where
  pub issued_by_create :
      (config : Config) (items : List CreateTokenRequest) (jwt_id : String) (made : ℕ)
      (response : CreateTokenResponse Token)
      → create_access_token env config items jwt_id made ≡ ok response
      → env.sign (issued env items config.access_token_expire_time jwt_id made) config.secret_key
        ≡ ok response.token
  unfolding create_access_token create_token
  issued_by_create config items jwt_id made response done = ground arith

  pub validate_run :
      (config : Config) (keys : List String) (token : Token) (now : ℕ) (claims : Claims)
      → env.required_token token ≡ none
      → env.parse token config.secret_key now ≡ ok claims
      → validate_token env config (record { token = token; keys = keys }) now
        ≡ ok (record {
          valid = true;
          additional_data = to_map_data (env.iteration (wanted keys)) claims;
        })
  unfolding validate_token wanted
  validate_run config keys token now claims nonempty parsed = ground (arith, nonempty, parsed)

  -- Where the JWT library reads back the claims that an access token is made of, texts but for two whole
  -- numbers of 2 ^ 53 at most and with no claim "nbf", if it signed them with the same key, until the
  -- time of the claim "exp", in seconds: an access token for such items is accepted at every time before
  -- the number of nanoseconds of its lifetime, taken as a time in seconds, and every text claim that is
  -- wanted and that the token was made with stands in the answer once, with its value, in any order of
  -- iteration.
  pub validate_token_round_trip :
      (jwt : (items : List CreateTokenRequest) (jwt_id key : String) (token : Token)
          (made n now : ℕ)
        → let claims = issued env items (pos n) jwt_id made in
          claims "nbf" ≡ none
          → made ≤ 2 ^ 53
          → n ≤ 2 ^ 53
          → env.sign claims key ≡ ok token
          → now < n
          → env.parse token key now ≡ ok claims)
      (any_order : (l : List String) → Perm (env.iteration l) l) (config : Config)
      (items : List CreateTokenRequest) (jwt_id : String) (made n now : ℕ)
      (response : CreateTokenResponse Token) (keys : List String) (key value : String)
      → config.access_token_expire_time ≡ pos n
      → issued env items config.access_token_expire_time jwt_id made "nbf" ≡ none
      → made ≤ 2 ^ 53
      → n ≤ 2 ^ 53
      → now < n
      → create_access_token env config items jwt_id made ≡ ok response
      → env.required_token response.token ≡ none
      → issued env items config.access_token_expire_time jwt_id made key ≡ some (text_claim value)
      → (has_key key additional_data || has_key key keys) ≡ true
      → (answer : ValidateTokenResponse) × (validate_token env config
            (record { token = response.token; keys = keys })
            now
          ≡ ok answer)
        × (answer.valid ≡ true)
        × (times_value key value answer.additional_data ≡ 1)
  unfolding validate_token issued wanted
  validate_token_round_trip jwt any_order config items jwt_id made n now response keys key value
        lifetime no_nbf small_made small early created nonempty has asked =
      let claims = issued env items config.access_token_expire_time jwt_id made in
      let signed = issued_by_create config items jwt_id made response created in
      let same : issued env items config.access_token_expire_time jwt_id made
          ≡ issued env items (pos n) jwt_id made =
        ap (λ d. issued env items d jwt_id made) lifetime in
      let parsed =
        jwt items jwt_id config.secret_key response.token made n now
          (ap (λ c. c "nbf") (sym same) ∙ no_nbf) small_made small
          (ap (λ c. env.sign c config.secret_key) (sym same) ∙ signed) early
        ∙ ap ok (sym same) in
      (
        record { valid = true; additional_data = to_map_data (env.iteration (wanted keys)) claims },
        validate_run config keys response.token now claims nonempty parsed,
        refl,
        to_map_data_times key value (env.iteration (wanted keys)) claims has
            ∙ weigh-Perm (λ k. if str_eq k key then 1 else 0) (any_order (wanted keys))
            ∙ wanted_once key keys asked,
      )
