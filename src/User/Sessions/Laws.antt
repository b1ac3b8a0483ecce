-- ===== src/User/Sessions/Laws.antt =====
-- Who a token that Login gave is taken for.
use brain_blitz.Prelude.{
  ℕ, ◌<◌, String, ◌≡◌, ◌≢◌, refl, sym, ◌∙◌, ap, Option, none, some, List, ◌∷◌, [], arith, str_eq,
  false,
}
use brain_blitz.Prelude.Int.{ℤ, pos}
use brain_blitz.Errors.{GoError, status_ok}
use brain_blitz.User.Email.{Bytes}
use brain_blitz.User.Service.{
  User, LoginResponse, Reply, ok, err, Environment, claims_of, role_string, login, profile,
}
use brain_blitz.User.Service.Laws.{login_needs_password}
use brain_blitz.User.Delivery.{http_profile}
use brain_blitz.User.Sessions.{AuthServer, token_of, with_auth_client}
use brain_blitz.Auth.Service
use brain_blitz.Auth.Service.{
  CreateTokenRequest, CreateTokenResponse, ValidateTokenRequest, issued, create_access_token,
  text_claim, add_claims, to_jwt_claims,
}
use brain_blitz.Auth.Client.{IssuedToken, received, get_access_token}
use brain_blitz.Auth.Delivery.{
  GrpcReply, reply, grpc_reply, grpc_get_access_token, http_validate_token, empty_request,
}
use brain_blitz.Auth.Delivery.Laws.{id-HasHeader, role-HasHeader}
use brain_blitz.Auth.Delivery.Tokens.{IsReliable, ReadsBack, grpc_reply-reply, validated_header}
use brain_blitz.Http.{content, Header, Bind, get_header}

-- The documented behaviour of a gRPC connection: a message comes from the server's handler, and there
-- is a message or an error. The connection may fail at any time.
pub record IsConnection (carry : GrpcReply IssuedToken → Option IssuedToken × Option GoError)
    : Type 0 where
  pub delivers :
      (r : GrpcReply IssuedToken) (m : IssuedToken) → carry r ≡ (some m, none) → r ≡ reply m
  pub answers : (r : GrpcReply IssuedToken) → carry r ≢ (none, none)

-- The claims of a user's id and role.
abbrev pub id_and_role : String → String → List CreateTokenRequest
id_and_role id role = record { key = "id"; value = id } ∷ record { key = "role"; value = role } ∷ []

abbrev reply_text : Reply String → String
reply_text (ok t) = t
reply_text (err e) = ""

module _ {S : Type 0} (server : AuthServer S) (reliable : IsReliable server.libraries)
    (jwt : (id role jwt_id : String) (made : ℕ)
      → ReadsBack server.libraries (
          issued server.libraries
            (id_and_role id role)
            server.config.access_token_expire_time
            jwt_id
            made))
    (connection : IsConnection server.carry) (env : Environment S) where
  -- A token that the client returns is one that the server's handler sent.
  received_is_sent :
      (r : GrpcReply IssuedToken) (out : Option IssuedToken × Option GoError) (token : String)
      → server.carry r ≡ out
      → token_of (received out) ≡ ok token
      → (m : IssuedToken) × (r ≡ reply m) × (m.token ≡ token)
  received_is_sent r (res, some e) token carried got = absurd (ground arith)
  received_is_sent r (none, none) token carried got = absurd (connection.answers r carried)
  received_is_sent r (some m, none) token carried got =
      (m, connection.delivers r m carried, ap reply_text got)

  -- What the auth service is asked for a user.
  abbrev user_items : User → List CreateTokenRequest
  unfolding role_string
  user_items user = id_and_role (server.format_int user.id) (role_string user.role)

  access_token_made :
      (user : User) (token : String) (s : S)
      → (with_auth_client server env).get_access_token (claims_of user) s ≡ ok token
      → (response : CreateTokenResponse String) × (create_access_token server.libraries
            server.config
            (user_items user)
            (server.uuid s)
            (server.clock s)
          ≡ Service.ok response)
        × (response.token ≡ token)
  unfolding with_auth_client get_access_token grpc_get_access_token grpc_reply claims_of user_items
  access_token_made user token s got =
      let (m, sent, same) = received_is_sent _ _ token refl got in
      let (response, created, here) = grpc_reply-reply _ m sent in (response, created, here ∙ same)

  issued_id :
      (user : User) (jwt_id : String) (made : ℕ)
      → issued server.libraries
          (user_items user)
          server.config.access_token_expire_time
          jwt_id
          made
          "id"
        ≡ some (text_claim (server.format_int user.id))
  unfolding issued add_claims to_jwt_claims user_items
  issued_id user jwt_id made = refl

  issued_role :
      (user : User) (jwt_id : String) (made : ℕ)
      → issued server.libraries
          (user_items user)
          server.config.access_token_expire_time
          jwt_id
          made
          "role"
        ≡ some (text_claim (role_string user.role))
  unfolding issued add_claims to_jwt_claims user_items
  issued_role user jwt_id made = refl

  pub login_identifies :
      (email password : Bytes) (response : LoginResponse) (s : S) (n now : ℕ)
      (marshal : List CreateTokenRequest → Option String) (header h : Header)
      (bind : Bind (ValidateTokenRequest String))
      → login (with_auth_client server env) (record { email = email; password = password }) s
        ≡ ok response
      → server.config.access_token_expire_time ≡ pos n
      → now < n
      → str_eq response.access_token "" ≡ false
      → get_header header "Authorization" ≡ response.access_token
      → (bind empty_request).1 ≡ none
      → let (answer, h') =
          http_validate_token server.libraries server.config marshal header bind now h in
        (user : User) × (env.get_user email s ≡ ok user)
        × (answer.status ≡ status_ok)
        × (h' "X-User-ID" ≡ some (server.format_int response.id))
        × (h' "X-User-Role" ≡ some (role_string user.role))
  unfolding with_auth_client user_items
  login_identifies email password response s n now marshal header h bind logged lifetime early
        present sent bound =
      let (user, found, accepted, own, access, refresh) =
        login_needs_password (with_auth_client server env) email password response s logged in
      let (made, created, same) = access_token_made user response.access_token s access in
      let claims_read =
        jwt (server.format_int user.id) (role_string user.role) (server.uuid s) (server.clock s) in
      let present' = ap (λ t. str_eq t "") same ∙ present in
      let sent' = sent ∙ sym same in
      let (answered, id) =
        validated_header server.libraries reliable server.config (user_items user) (server.uuid s)
          (server.clock s) n now made "id" "X-User-ID" (server.format_int user.id) marshal header h
          bind claims_read lifetime early created present'
          (issued_id user (server.uuid s) (server.clock s)) refl id-HasHeader refl sent' bound in
      let (_, role) =
        validated_header server.libraries reliable server.config (user_items user) (server.uuid s)
          (server.clock s) n now made "role" "X-User-Role" (role_string user.role) marshal header h
          bind claims_read lifetime early created present'
          (issued_role user (server.uuid s) (server.clock s)) refl role-HasHeader refl sent'
          bound in
      (user, found, answered, id ∙ ap (λ i. some (server.format_int i)) (sym own), role)

  http_profile_found :
      (header : Header) (id : String) (user : User) (s : S)
      → header "X-User-ID" ≡ some id
      → str_eq id "" ≡ false
      → env.get_user_by_id id s ≡ ok user
      → http_profile env header s ≡ record {
        status = status_ok;
        body = content (record {
          id = user.id;
          username = user.username;
          display_name = user.display_name;
          role = role_string user.role;
          created_at = user.created_at;
          updated_at = user.updated_at;
        });
      }
  unfolding http_profile profile
  http_profile_found header id user s sent some_text found =
      rw (http_profile, get_header, sent, some_text, profile, found) refl

  -- Where the libraries and the connection do what they document, and the repository finds by id whom
  -- it finds by address: the profile that is asked for with the headers of a validated token, which
  -- Login gave for an address, is the one of the user who is stored under that address.
  pub profile_after_login :
      (email password : Bytes) (response : LoginResponse) (s : S) (n now : ℕ)
      (marshal : List CreateTokenRequest → Option String) (header h : Header)
      (bind : Bind (ValidateTokenRequest String))
      → ((id : ℤ) → str_eq (server.format_int id) "" ≡ false)
      → ((user : User)
          → env.get_user email s ≡ ok user
          → env.get_user_by_id (server.format_int user.id) s ≡ ok user)
      → login (with_auth_client server env) (record { email = email; password = password }) s
        ≡ ok response
      → server.config.access_token_expire_time ≡ pos n
      → now < n
      → str_eq response.access_token "" ≡ false
      → get_header header "Authorization" ≡ response.access_token
      → (bind empty_request).1 ≡ none
      → let (answer, h') =
          http_validate_token server.libraries server.config marshal header bind now h in
        (user : User) × (env.get_user email s ≡ ok user)
        × (response.id ≡ user.id)
        × (http_profile env h' s ≡ record {
          status = status_ok;
          body = content (record {
            id = user.id;
            username = user.username;
            display_name = user.display_name;
            role = role_string user.role;
            created_at = user.created_at;
            updated_at = user.updated_at;
          });
        })
  unfolding with_auth_client
  profile_after_login email password response s n now marshal header h bind some_text by_id logged
        lifetime early present sent bound =
      let (user, found, _, own, _, _) =
        login_needs_password (with_auth_client server env) email password response s logged in
      let (_, _, _, id, _) =
        login_identifies email password response s n now marshal header h bind logged lifetime early
          present sent bound in
      (
        user,
        found,
        own,
        http_profile_found _ (server.format_int user.id) user s
            (id ∙ ap (λ i. some (server.format_int i)) own) (some_text user.id) (by_id user found),
      )
