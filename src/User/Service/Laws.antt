-- ===== src/User/Service/Laws.antt =====
-- Who can sign up and who can log in.
use brain_blitz.Prelude.{◌≡◌, ◌⊎◌, refl, ◌∙◌, ap, inl, inr, true, false, none, arith, leb, length}
use brain_blitz.Errors.{GoError}
use brain_blitz.User.Email.{Bytes, is_valid, get_display_name}
use brain_blitz.User.Service.{
  User, LoginResponse, Reply, ok, err, Environment, new_user, claims_of, sign_up, issue_tokens,
  login,
}

Reply-cases {ℓ} :
    {A : Type ℓ} (r : Reply A) → ((a : A) × (r ≡ ok a)) ⊎ ((e : GoError) × (r ≡ err e))
Reply-cases (ok a) = inl (a, refl)
Reply-cases (err e) = inr (e, refl)

module _ {S : Type 0} (env : Environment S) where
  sign_up_ok :
      (email password name : Bytes) (s : S)
      → (sign_up env (record { email = email; password = password }) s).0 ≡ ok name
      → (hash : Bytes) × (is_valid email ≡ true)
        × (leb (length password) 0 ≡ false)
        × (env.hash_password password s ≡ ok hash)
        × ((env.insert_user (new_user email (get_display_name email) hash (env.now_millis s)) s).0
            ≡ none)
        × ((sign_up env (record { email = email; password = password }) s).1
            ≡ (env.insert_user
                (new_user email (get_display_name email) hash (env.now_millis s))
                s).1)
  unfolding sign_up
  sign_up_ok email password name s done = elim (Reply-cases (env.hash_password password s)) [
    | inr (e, failed) ↦ absurd (ground arith)
    | inl (hash, hashed) ↦ (hash, ground arith, ground arith, hashed, ground arith, ground arith)
  ]

  login_right :
      (email password : Bytes) (user : User) (s : S)
      → is_valid email ≡ true
      → leb (length password) 0 ≡ false
      → env.get_user email s ≡ ok user
      → env.check_password_hash password user.hashed_password ≡ true
      → login env (record { email = email; password = password }) s ≡ issue_tokens env user s
  unfolding login
  login_right email password user s valid some_password found accepted =
      rw (valid, some_password, found, accepted) refl

  -- Where bcrypt accepts the password for the hash that it made of it, and the repository finds an
  -- inserted user under his name with the hash that was inserted, a user who has signed up can log
  -- in with what he signed up with: his login is the issue of the tokens for the stored user.
  pub sign_up_then_login :
      (bcrypt : (password hash : Bytes) (s : S)
        → env.hash_password password s ≡ ok hash
        → env.check_password_hash password hash ≡ true)
      (stores : (user : User) (s : S)
        → (env.insert_user user s).0 ≡ none
        → (stored : User) × (env.get_user user.username (env.insert_user user s).1 ≡ ok stored)
          × (stored.hashed_password ≡ user.hashed_password))
      (email password name : Bytes) (s : S)
      → (sign_up env (record { email = email; password = password }) s).0 ≡ ok name
      → let s' = (sign_up env (record { email = email; password = password }) s).1 in
        (stored : User) × (env.get_user email s' ≡ ok stored)
        × (login env (record { email = email; password = password }) s'
            ≡ issue_tokens env stored s')
  sign_up_then_login bcrypt stores email password name s done =
      let (hash, valid, some_password, hashed, inserted, after) =
        sign_up_ok email password name s done in
      let (stored, found, same) =
        stores (new_user email (get_display_name email) hash (env.now_millis s)) s inserted in
      let accepted : env.check_password_hash password stored.hashed_password ≡ true =
        ap (env.check_password_hash password) same ∙ bcrypt password hash s hashed in
      let here : env.get_user email
            (sign_up env (record { email = email; password = password }) s).1
          ≡ ok stored =
        ap (env.get_user email) after ∙ found in
      (stored, here, login_right email password stored _ valid some_password here accepted)

  -- Only who is stored under the address and has the right password gets tokens, and the response is
  -- for his id, with an access token and a refresh token that were both made for his id and role.
  pub login_needs_password :
      (email password : Bytes) (response : LoginResponse) (s : S)
      → login env (record { email = email; password = password }) s ≡ ok response
      → (user : User) × (env.get_user email s ≡ ok user)
        × (env.check_password_hash password user.hashed_password ≡ true)
        × (response.id ≡ user.id)
        × (env.get_access_token (claims_of user) s ≡ ok response.access_token)
        × (env.get_refresh_token (claims_of user) s ≡ ok response.refresh_token)
  unfolding login issue_tokens
  login_needs_password email password response s done = elim (Reply-cases (env.get_user email s)) [
    | inr (e, missing) ↦ absurd (ground arith)
    | inl (user, found) ↦ (user, found, ground arith, ground arith, ground arith, ground arith)
  ]
