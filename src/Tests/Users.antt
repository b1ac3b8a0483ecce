-- ===== src/Tests/Users.antt =====
-- The user service at concrete inputs.
use brain_blitz.Prelude.{
  ◌≡◌, ◌↔◌, sym, ◌∙◌, refl, ap, Bool, true, false, Option, none, some, [], ◌∷◌, ==_self, ◌==◌,
  if◌then◌else◌,
}
use brain_blitz.Prelude.Int.{pos}
use brain_blitz.Errors.{text}
use brain_blitz.User.Email.{Bytes, is_valid}
use brain_blitz.User.Email.Laws.{IsAddress, is_valid_iff}
use brain_blitz.User.Service.{
  User, ok, err, Environment, claims_of, sign_up, issue_tokens, login, new_user,
}
use brain_blitz.User.Service.Laws.{login_needs_password}

-- alice@x.com
abbrev pub alice : Bytes
alice = 97 ∷ 108 ∷ 105 ∷ 99 ∷ 101 ∷ 64 ∷ 120 ∷ 46 ∷ 99 ∷ 111 ∷ 109 ∷ []

abbrev pub password : Bytes
password = 49 ∷ 50 ∷ []

is_valid_iff_example : (is_valid alice ≡ true) ↔ IsAddress alice
is_valid_iff_example = is_valid_iff alice

abbrev pub same_bytes : Bytes → Bytes → Bool
same_bytes [] [] = true
same_bytes [] (y ∷ ys) = false
same_bytes (x ∷ xs) [] = false
same_bytes (x ∷ xs) (y ∷ ys) = let rest = same_bytes xs ys in if x == y then rest else false

pub same_bytes_self : (xs : Bytes) → same_bytes xs xs ≡ true
same_bytes_self [] = refl
same_bytes_self (x ∷ xs) = rw (==_self x) (same_bytes_self xs)

-- A store of one user at most, and hashes that are the password after a zero byte.
abbrev pub environment : Environment (Option User)
environment = record {
  now_millis = λ s. 5;
  hash_password = λ p s. ok (0 ∷ p);
  check_password_hash = λ p h. same_bytes h (0 ∷ p);
  insert_user = λ user s. (none, some user);
  get_user = λ name s. elim s [
    | none ↦ err (text "not found")
    | some user ↦ if same_bytes user.username name then ok user else err (text "not found")
  ];
  get_user_by_id = λ id s. err (text "not found");
  get_access_token = λ claims s. ok "access";
  get_refresh_token = λ claims s. ok "refresh";
  contains = λ s t. false;
}

pub hash_is_accepted :
    (p hash : Bytes) (s : Option User)
    → environment.hash_password p s ≡ ok hash
    → environment.check_password_hash p hash ≡ true
hash_is_accepted p hash s hashed =
    let same : 0 ∷ p ≡ hash = cc in
    ap (λ h. same_bytes h (0 ∷ p)) (sym same) ∙ same_bytes_self (0 ∷ p)

insert_is_found :
    (user : User) (s : Option User)
    → (environment.insert_user user s).0 ≡ none
    → (stored : User) × (environment.get_user user.username (environment.insert_user user s).1
        ≡ ok stored)
      × (stored.hashed_password ≡ user.hashed_password)
insert_is_found user s inserted = (user, rw (same_bytes_self user.username) refl, refl)

abbrev signed_up : Option User
signed_up = (sign_up environment (record { email = alice; password = password }) none).1

abbrev pub stored_user : User
stored_user = new_user alice [] (0 ∷ password) 5

login_needs_password_example :
    (user : User) × (environment.get_user alice (some stored_user) ≡ ok user)
    × (environment.check_password_hash password user.hashed_password ≡ true)
    × (pos 0 ≡ user.id)
    × (environment.get_access_token (claims_of user) (some stored_user) ≡ ok "access")
    × (environment.get_refresh_token (claims_of user) (some stored_user) ≡ ok "refresh")
unfolding login issue_tokens is_valid
login_needs_password_example =
    login_needs_password environment alice password
      (record { id = pos 0; access_token = "access"; refresh_token = "refresh" }) (some stored_user)
      refl
