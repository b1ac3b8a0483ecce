-- ===== src/User/Service.antt =====
-- services/user_app/service: SignUp, Login and Profile. The repository (PostgreSQL), bcrypt and the
-- client of the auth service are an interface on a state `S`.
pub mod Laws
use brain_blitz.Prelude.{
  ℕ, String, Bool, true, false, Option, none, some, List, [], ◌∷◌, leb, length, if◌then◌else◌,
  str_eq,
}
use brain_blitz.Prelude.Int.{ℤ}
use brain_blitz.Errors.{
  GoError, app, new, wrap, error_text, err_invalid_input, err_invalid_login, err_internal,
  status_bad_request, codes_invalid_argument, status_not_found, codes_not_found,
}
use brain_blitz.User.Email.{Bytes, is_valid, get_display_name}

-- `Role(0)` is what an unknown text is read as.
pub data Role : Type 0 where
  no_role user_role admin_role : Role

unfoldable pub role_string : Role → String
role_string no_role = ""
role_string user_role = "user"
role_string admin_role = "admin"

unfoldable pub map_to_role_entity : String → Role
map_to_role_entity role_str =
    if str_eq role_str "user"
    then user_role
    else if str_eq role_str "admin"
    then admin_role
    else no_role

pub record User : Type 0 where
  pub id : ℤ  -- int64
  pub username : Bytes
  pub hashed_password : Bytes
  pub display_name : Bytes
  pub created_at : ℕ
  pub updated_at : ℕ
  pub role : Role

pub record SignUpRequest : Type 0 where
  pub email : Bytes
  pub password : Bytes

-- Also a LoginRequest, which has the same fields.
pub record LoginRequest : Type 0 where
  pub email : Bytes
  pub password : Bytes

-- The id stands for its decimal text.
pub record LoginResponse : Type 0 where
  pub id : ℤ
  pub access_token : String
  pub refresh_token : String

pub record ProfileResponse : Type 0 where
  pub id : ℤ
  pub username : Bytes
  pub display_name : Bytes
  pub role : String
  pub created_at : ℕ
  pub updated_at : ℕ

-- The value of a claim: the text of the user's id, or a text.
pub data ClaimValue : Type 0 where
  id_text : ℤ → ClaimValue
  text_value : String → ClaimValue

-- The claims of both tokens.
unfoldable pub claims_of : User → List (String × ClaimValue)
unfolding role_string
claims_of user = ("id", id_text user.id) ∷ ("role", text_value (role_string user.role)) ∷ []

pub data Reply {ℓ} (A : Type ℓ) : Type ℓ where
  ok : A → Reply A
  err : GoError → Reply A

-- The service's Repository and TokenClient, bcrypt, the clock in milliseconds, and strings.Contains.
pub record Environment (S : Type 0) : Type 0 where
  pub now_millis : S → ℕ
  pub hash_password : Bytes → S → Reply Bytes
  pub check_password_hash : Bytes → Bytes → Bool
  pub insert_user : User → S → Option GoError × S
  pub get_user : Bytes → S → Reply User
  pub get_user_by_id : String → S → Reply User
  pub get_access_token : List (String × ClaimValue) → S → Reply String
  pub get_refresh_token : List (String × ClaimValue) → S → Reply String
  pub contains : String → String → Bool

abbrev pub new_user : Bytes → Bytes → Bytes → ℕ → User
new_user email display_name hash now = record {
  id = ℤ.pos 0;
  username = email;
  hashed_password = hash;
  display_name = display_name;
  created_at = now;
  updated_at = now;
  role = user_role;
}

module _ {S : Type 0} (env : Environment S) where
  -- The error of SignUp for an error of the repository.
  abbrev pub insert_error : GoError → GoError
  unfolding error_text new wrap err_internal
  insert_error e =
      if env.contains (error_text e) "duplicate"
      then app (
          new "service.SignUp" "DUPLICATE_USERNAME" "username already exists" status_bad_request
            codes_invalid_argument)
      else app (wrap "service.SignUp" (some e) err_internal)

  -- The response of SignUp is the display name.
  unfoldable pub sign_up : SignUpRequest → S → Reply Bytes × S
  unfolding is_valid get_display_name insert_error wrap err_invalid_input err_invalid_login
      err_internal
  sign_up request s =
      if is_valid request.email
      then (if leb (length request.password) 0
          then (err (app (wrap "service.SignUp" none err_invalid_login)), s)
          else elim (env.hash_password request.password s) [
            | err e ↦ (err (app (wrap "service.SignUp" (some e) err_internal)), s)
            | ok hash ↦
                let user =
                  new_user request.email (get_display_name request.email) hash (env.now_millis s) in
                let (inserted, s') = env.insert_user user s in
                elim inserted [
                  | some e ↦ (err (insert_error e), s')
                  | none ↦ (ok user.display_name, s')
                ]
          ])
      else (err (app (wrap "service.SignUp" none err_invalid_input)), s)

  -- What Login does for a user whose password is right.
  unfoldable pub issue_tokens : User → S → Reply LoginResponse
  unfolding claims_of wrap err_internal
  issue_tokens user s = elim (env.get_access_token (claims_of user) s) [
    | err e ↦ err (app (wrap "service.Login" (some e) err_internal))
    | ok access ↦ elim (env.get_refresh_token (claims_of user) s) [
      | err e ↦ err (app (wrap "service.Login" (some e) err_internal))
      | ok refresh ↦ ok (record { id = user.id; access_token = access; refresh_token = refresh })
    ]
  ]

  unfoldable pub login : LoginRequest → S → Reply LoginResponse
  unfolding is_valid issue_tokens wrap err_invalid_login err_internal
  login request s =
      if is_valid request.email
      then (if leb (length request.password) 0
          then err (app (wrap "service.Login" none err_invalid_login))
          else elim (env.get_user request.email s) [
            | err e ↦ err (app (wrap "service.Login" (some e) err_internal))
            | ok user ↦
                if env.check_password_hash request.password user.hashed_password
                then issue_tokens user s
                else err (app (wrap "service.Login" none err_invalid_login))
          ])
      else err (app (wrap "service.Login" none err_invalid_login))

  unfoldable pub profile : String → S → Reply ProfileResponse
  unfolding role_string error_text new wrap err_internal
  profile id s = elim (env.get_user_by_id id s) [
    | err e ↦
        if env.contains (error_text e) "not found"
        then err (
            app (
              new "service.Profile" "USER_NOT_FOUND" "user not found" status_not_found
                codes_not_found))
        else err (app (wrap "service.Profile" (some e) err_internal))
    | ok user ↦ ok (record {
      id = user.id;
      username = user.username;
      display_name = user.display_name;
      role = role_string user.role;
      created_at = user.created_at;
      updated_at = user.updated_at;
    })
  ]
