-- ===== src/Tests/Logins.antt =====
-- A login over an auth server, and a request with its token.
use mathlib.Core.List.Perm
use brain_blitz.Prelude.{
  ℕ, ◌*◌, String, Bool, true, false, Bool-cases, inl, inr, ◌&&◌, ◌≡◌, ◌≢◌, sym, ◌∙◌, refl, ap,
  Option, none, some, arith, ltb, ◌==◌, str_eq, eq_iff, if◌then◌else◌, ==_iff,
}
use brain_blitz.Prelude.Int.{ℤ, pos, negsuc}
use brain_blitz.Errors.{GoError, text, status_ok}
use brain_blitz.User.Email.{is_valid}
use brain_blitz.User.Service.{User, LoginResponse, claims_of, login, role_string, issue_tokens}
use brain_blitz.User.Service
use brain_blitz.User.Delivery.{http_profile}
use brain_blitz.User.Sessions.{AuthServer, with_auth_client}
use brain_blitz.User.Sessions.Laws.{id_and_role, IsConnection, profile_after_login}
use brain_blitz.Auth.Service.{
  Claim, Claims, text_claim, number_claim, Config, Environment, ok, err, issued, add_claims,
  to_jwt_claims, create_access_token, create_refresh_token, create_token,
  validate_create_token_request, validate_items,
}
use brain_blitz.Auth.Client.{IssuedToken, get_access_token, get_refresh_token}
use brain_blitz.Auth.Delivery.{
  grpc_reply, GrpcReply, reply, failure, http_validate_token, grpc_get_access_token,
  grpc_get_refresh_token,
}
use brain_blitz.Auth.Delivery.Tokens.{IsReliable, ReadsBack}
use brain_blitz.Http.{content, Header, set_header}
use brain_blitz.Tests.Users.{environment, alice, password, stored_user}

abbrev text_of : Option Claim → String
text_of (some (text_claim s)) = s
text_of (some (number_claim n)) = ""
text_of none = ""

abbrev number_of : Option Claim → ℕ
number_of (some (number_claim (pos n))) = n
number_of (some (number_claim (negsuc n))) = 0
number_of (some (text_claim s)) = 0
number_of none = 0

-- Ten minutes, in nanoseconds.
abbrev lifetime : ℕ
lifetime = 600 * 1000000000

abbrev config : Config
config = record {
  secret_key = "secret";
  access_token_expire_time = pos lifetime;
  refresh_token_expire_time = pos lifetime;
}

-- The claims of user 0, before their numbers.
abbrev signed_text : Claims → String → String → String → Bool
signed_text claims id role jwt_id =
    str_eq (text_of (claims "id")) id
    && str_eq (text_of (claims "role")) role
    && str_eq (text_of (claims "jti")) jwt_id

abbrev user_claims : String → String → String → ℕ → Claims
user_claims id role jwt_id made key =
    if str_eq key "iat"
    then some (number_claim (pos made))
    else if str_eq key "jti"
    then some (text_claim jwt_id)
    else if str_eq key "exp"
    then some (number_claim (pos lifetime))
    else if str_eq key "role"
    then some (text_claim role)
    else if str_eq key "id"
    then some (text_claim id)
    else none

-- A JWT library that signs the tokens of user 0 only.
abbrev libraries : Environment String
libraries = record {
  required = λ s. none;
  required_token = λ t. none;
  required_data = λ items. none;
  sign = λ claims key.
      if signed_text claims "0" "user" "uuid" && (number_of (claims "iat") == 1000)
      then ok "token"
      else err (text "not signed");
  parse = λ token key now.
      if ltb now lifetime
      then ok (user_claims "0" "user" "uuid" 1000)
      else err (text "token is expired");
  iteration = λ l. l;
}

libraries-IsReliable : IsReliable libraries
libraries-IsReliable = record { nonempty = λ t some_text. refl; any_order = λ l. Perm.refl l }

signed_fields :
    (id role jwt_id : String) (made : ℕ) (key token : String)
    → libraries.sign (user_claims id role jwt_id made) key ≡ ok token
    → ("0" ≡ id) × ("user" ≡ role) × ("uuid" ≡ jwt_id) × (1000 ≡ made)
signed_fields id role jwt_id made key token signed =
    let is_id : str_eq id "0" ≡ true = ground arith in
    let is_role : str_eq role "user" ≡ true = ground arith in
    let is_jwt_id : str_eq jwt_id "uuid" ≡ true = ground arith in
    let is_made : (made == 1000) ≡ true = ground arith in
    (
      sym ((eq_iff id "0").0 is_id),
      sym ((eq_iff role "user").0 is_role),
      sym ((eq_iff jwt_id "uuid").0 is_jwt_id),
      sym ((==_iff made 1000).0 is_made),
    )

libraries-ReadsBack :
    (id role jwt_id : String) (made : ℕ)
    → ReadsBack libraries (issued libraries (id_and_role id role) (pos lifetime) jwt_id made)
unfolding issued add_claims
libraries-ReadsBack id role jwt_id made key token n now signed expiry early =
    let until : lifetime ≡ n = ap (λ c. number_of c) expiry in
    let fields = signed_fields id role jwt_id made key token signed in
    let timely : ltb now lifetime ≡ true = ground (arith, until, early) in
    ap (λ b. if b then ok (user_claims "0" "user" "uuid" 1000) else err (text "token is expired"))
      timely
    ∙ λ i. ok (user_claims (fields.0 i) (fields.1 i) (fields.2 i) (fields.3 i))

abbrev carry : GrpcReply IssuedToken → Option IssuedToken × Option GoError
carry (reply m) = (some m, none)
carry (failure msg code) = (none, some (text msg))

carry_delivers :
    (r : GrpcReply IssuedToken) (m : IssuedToken) → carry r ≡ (some m, none) → r ≡ reply m
carry_delivers (reply m') m carried = cc
carry_delivers (failure msg code) m carried = absurd (ground arith)

carry_answers : (r : GrpcReply IssuedToken) → carry r ≢ (none, none)
carry_answers (reply m) carried = absurd (ground arith)
carry_answers (failure msg code) carried = absurd (ground arith)

carry-IsConnection : IsConnection carry
carry-IsConnection = record { delivers = carry_delivers; answers = carry_answers }

abbrev format_int : ℤ → String
format_int (pos n) = if n == 0 then "0" else "1"
format_int (negsuc n) = "-1"

abbrev server : AuthServer (Option User)
server = record {
  libraries = libraries;
  config = config;
  uuid = λ s. "uuid";
  clock = λ s. 1000;
  carry = carry;
  format_int = format_int;
}

abbrev header : Header
header = set_header "Authorization" "token" (λ name. none)

format_int_some_text : (id : ℤ) → str_eq (format_int id) "" ≡ false
format_int_some_text (pos n) = elim (Bool-cases (n == 0)) [
  | inl is_zero ↦ ap (λ b. str_eq (if b then "0" else "1") "") is_zero
  | inr other ↦ ap (λ b. str_eq (if b then "0" else "1") "") other
]
format_int_some_text (negsuc n) = refl

-- The same store, with its one user found by any id.
abbrev with_ids : Service.Environment (Option User)
with_ids = record environment {
  get_user_by_id =
      λ id s. elim s [ none ↦ Service.err (text "not found") | some user ↦ Service.ok user ];
}

profile_after_login_example :
    let (answer, h') =
      http_validate_token libraries config
        (λ items. none)
        header
        (λ r. (r, none))
        1001000
        (λ name. none) in
    (user : User) × (with_ids.get_user alice (some stored_user) ≡ Service.ok user)
    × (pos 0 ≡ user.id)
    × (http_profile with_ids h' (some stored_user) ≡ record {
      status = status_ok;
      body = content (record {
        id = user.id;
        username = user.username;
        display_name = user.display_name;
        role = role_string user.role;
        created_at = user.created_at;
        updated_at = user.updated_at;
      });
    })
unfolding login issue_tokens is_valid with_auth_client get_access_token get_refresh_token
    grpc_get_access_token grpc_get_refresh_token grpc_reply claims_of create_access_token
    create_refresh_token create_token issued add_claims to_jwt_claims validate_create_token_request
    validate_items role_string
profile_after_login_example =
    profile_after_login server libraries-IsReliable libraries-ReadsBack carry-IsConnection with_ids
      alice password (record { id = pos 0; access_token = "token"; refresh_token = "token" })
      (some stored_user) lifetime 1001000 (λ items. none) header (λ name. none) (λ r. (r, none))
      format_int_some_text (λ user found. found) refl refl (omega arith) refl refl refl
