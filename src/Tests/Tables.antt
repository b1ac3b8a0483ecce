-- ===== src/Tests/Tables.antt =====
-- The repository of the users on a table in memory.
use brain_blitz.Game.Entity.{Time}
use brain_blitz.Prelude.{
  ◌≤◌, ◌+◌, ◌*◌, ◌/◌, arith, String, Bool, true, ◌≡◌, refl, ap, ◌∙◌, Option, none, some, List, [],
  ◌∷◌, length, if◌then◌else◌,
}
use brain_blitz.Prelude.Int.{ℤ, pos}
use brain_blitz.Errors.{
  GoError, err_message, text, to_http_json, status_bad_request, status_internal_server_error,
}
use brain_blitz.User.Email.{Bytes, is_valid, get_display_name}
use brain_blitz.User.Service.{User, ok, err, Environment, new_user, sign_up, login}
use brain_blitz.User.Repository.{
  UserRow, NewUser, Row, row, failed, Database, unix_milli, insert_user, get_user,
}
use brain_blitz.User.Repository.Laws.{
  stored_as, answer_of, IsStorable, Columns, IsUsersTable, FindsInfix, insert_user-get_user,
  service, sign_up_again, login_unknown,
}
use brain_blitz.Tests.Users
use brain_blitz.Tests.Users.{alice, password, same_bytes, same_bytes_self}

abbrev find : List UserRow → Bytes → Option UserRow
find [] name = none
find (r ∷ rows) name =
    let later = find rows name in if same_bytes r.username name then some r else later

-- Every row is a text, and times are cut to whole microseconds.
abbrev columns : Columns
columns = record { is_text = λ b. true; rounded = λ t. t / 1000 * 1000 }

row_id : {a b : ℤ} → row a ≡ row b → a ≡ b
row_id same = cc

abbrev insert_row : Option UserRow → NewUser → List UserRow → Row ℤ × List UserRow
insert_row none new s = (row (pos (length s)), stored_as columns (pos (length s)) new ∷ s)
insert_row (some old) new s = (failed (text "pq: duplicate key value"), s)

abbrev db : Database (List UserRow)
db = record {
  prepare = λ q s. none;
  insert = λ q new s. insert_row (find s new.username) new s;
  select_by_username = λ q name s. answer_of (find s name);
  select_by_id = λ q id s. answer_of none;
  now = λ s. 5000000;
}

row_is_kept :
    (new : NewUser) (id : ℤ) (s : List UserRow) (found : Option UserRow)
    → (insert_row found new s).0 ≡ row id
    → find (insert_row found new s).1 new.username ≡ some (stored_as columns id new)
row_is_kept new id s (some old) inserted = absurd (ground arith)
row_is_kept new id s none inserted =
    ap (λ b. if b then some (stored_as columns (pos (length s)) new) else find s new.username)
      (same_bytes_self new.username)
    ∙ ap (λ i. some (stored_as columns i new)) (row_id inserted)

abbrev contains : String → String → Bool
contains s t = true

table : IsUsersTable db contains columns find
table = record {
  prepares = λ q s. refl;
  selects = λ name s. refl;
  inserts = λ new s fits fresh. (pos (length s), ap (λ o. (insert_row o new s).0) fresh);
  keeps = λ new id s inserted. row_is_kept new id s (find s new.username) inserted;
  refuses = λ new old s fits taken. (
    text "pq: duplicate key value",
    ap (λ o. (insert_row o new s).0) taken,
    refl,
    λ name. ap (λ o. find (insert_row o new s).1 name) taken,
  );
  near = λ t. (omega arith, omega arith);
}

infix_found : FindsInfix contains
infix_found before infix_text later = refl

abbrev shown : Bytes → String
shown name = "alice@x.com"

abbrev env : Environment (List UserRow)
env = record {
  now_millis = λ s. 5;
  hash_password = λ p s. ok (0 ∷ p);
  check_password_hash = λ p h. same_bytes h (0 ∷ p);
  insert_user = λ user s. (none, s);
  get_user = λ name s. err (text "");
  get_user_by_id = λ id s. err (text "");
  get_access_token = λ claims s. ok "access";
  get_refresh_token = λ claims s. ok "refresh";
  contains = contains;
}

abbrev alice_user : User
alice_user = new_user alice (get_display_name alice) (0 ∷ password) 5

alice_fits : IsStorable columns alice (0 ∷ password) (get_display_name alice)
unfolding get_display_name
alice_fits = (refl, refl, refl, omega arith, omega arith, omega arith)

insert_user-get_user_example :
    let (inserted, s') = insert_user db contains shown alice_user [] in
    (id : ℤ) × (t : Time) × (inserted ≡ ok id)
    × (t ≤ 5000000 + 1000)
    × (5000000 ≤ t + 1000)
    × (get_user db contains shown alice s'
        ≡ ok (record alice_user {
          id = id;
          created_at = unix_milli (some t);
          updated_at = unix_milli (some t);
        }))
insert_user-get_user_example =
    insert_user-get_user db contains shown columns find table alice_user [] alice_fits refl

abbrev alice_row : UserRow
alice_row = record {
  id = pos 0;
  username = alice;
  password = 0 ∷ password;
  display_name = get_display_name alice;
  role = "user";
  created_at = some 5000000;
  updated_at = some 5000000;
}

sign_up_again_example :
    let (answer, s') =
      sign_up
        (service db contains shown columns find table env infix_found)
        (record { email = alice; password = password })
        (alice_row ∷ []) in
    ((name : Bytes) → find s' name ≡ find (alice_row ∷ []) name)
    × ((e : GoError) × (answer ≡ err e)
        × (to_http_json e ≡ (
          err_message "username already exists" "username already exists",
          status_bad_request,
        )))
unfolding is_valid
sign_up_again_example =
    sign_up_again db contains shown columns find table env infix_found alice password (0 ∷ password)
      alice_row (alice_row ∷ []) refl refl refl alice_fits refl

login_unknown_example :
    (e : GoError) × (login
        (service db contains shown columns find table env infix_found)
        (record { email = alice; password = password })
        []
      ≡ err e)
    × ((to_http_json e).1 ≡ status_internal_server_error)
unfolding is_valid
login_unknown_example =
    login_unknown db contains shown columns find table env infix_found alice password [] refl refl
      refl

abbrev signed_up : List UserRow
signed_up =
    (sign_up (service db contains shown columns find table env infix_found)
      (record { email = alice; password = password }) []).1
