-- ===== src/User/Repository/Laws.antt =====
-- Sign up, login and profile on a table of users with unique names.
use Prim.Native.String.{◌++◌ as str_append}
use brain_blitz.Prelude.{
  str_append_assoc, String, Bool, true, false, ◌≡◌, refl, ap, ◌∙◌, ◌≤◌, ◌+◌, Option, none, some,
  leb, length,
}
use mathlib.Core.Option
use brain_blitz.Prelude.Int.{ℤ}
use brain_blitz.Game.Entity.{Time}
use brain_blitz.Errors.{
  GoError, err_message, app, wrap, err_internal, text, new, error_text, to_http_json,
  status_bad_request, status_internal_server_error,
}
use brain_blitz.User.Email.{Bytes, is_valid, get_display_name}
use brain_blitz.User.Service.{
  User, Role, no_role, user_role, admin_role, role_string, map_to_role_entity, ok, err, Environment,
  new_user, sign_up, login,
}
use brain_blitz.User.Repository.{
  UserRow, NewUser, Row, row, no_rows, failed, Database, insert_query, username_query, unix_milli,
  user_of_row, new_row, insert_user, get_user, with_repository, without_id,
}

-- What the columns of the table `users` take: whether bytes are a text in the encoding of the
-- database, and the time that a TIMESTAMPTZ keeps of a time.
pub record Columns : Type 0 where
  pub is_text : Bytes → Bool
  pub rounded : Time → Time

-- The row that an insertion makes.
abbrev pub stored_as : Columns → ℤ → NewUser → UserRow
stored_as columns id new = record {
  id = id;
  username = new.username;
  password = new.password;
  display_name = new.display_name;
  role = new.role;
  created_at = Option.map columns.rounded new.created_at;
  updated_at = Option.map columns.rounded new.updated_at;
}

abbrev pub answer_of : Option UserRow → Row UserRow
answer_of none = no_rows
answer_of (some r) = row r

-- Values that the columns VARCHAR(100), VARCHAR(255) and VARCHAR(100) take: texts of no more bytes than
-- that, so of no more characters.
abbrev pub IsStorable : Columns → Bytes → Bytes → Bytes → Type 0
IsStorable columns username password display_name =
    (columns.is_text username ≡ true)
    × (columns.is_text password ≡ true)
    × (columns.is_text display_name ≡ true)
    × (length username ≤ 100)
    × (length password ≤ 255)
    × (length display_name ≤ 100)

-- The same, with the text of a role, which VARCHAR(10) takes.
abbrev pub IsStorableRow : Columns → NewUser → Type 0
unfolding role_string
IsStorableRow columns new =
    IsStorable columns new.username new.password new.display_name
    × ((r : Role) × (new.role ≡ role_string r))

-- The documented behaviour of PostgreSQL, where it answers, on the table `users` of
-- services/user_app/repository/migrations, whose names are unique, seen as a map from a name to its row:
-- an insertion of values that the columns take succeeds for a new name, and for an old one fails with
-- the text "duplicate key" and changes no row; whenever an insertion succeeds, the row has the values
-- given, the times to the microsecond.
pub record IsUsersTable {S : Type 0} (db : Database S) (contains : String → String → Bool)
    (columns : Columns) (find : S → Bytes → Option UserRow) : Type 0 where
  pub prepares : (query : String) (s : S) → db.prepare query s ≡ none
  pub selects :
      (username : Bytes) (s : S)
      → db.select_by_username username_query username s ≡ answer_of (find s username)
  pub inserts :
      (new : NewUser) (s : S)
      → IsStorableRow columns new
      → find s new.username ≡ none
      → (id : ℤ) × ((db.insert insert_query new s).0 ≡ row id)
  pub keeps :
      (new : NewUser) (id : ℤ) (s : S)
      → (db.insert insert_query new s).0 ≡ row id
      → find (db.insert insert_query new s).1 new.username ≡ some (stored_as columns id new)
  pub refuses :
      (new : NewUser) (old : UserRow) (s : S)
      → IsStorableRow columns new
      → find s new.username ≡ some old
      → (e : GoError) × ((db.insert insert_query new s).0 ≡ failed e)
        × (contains (error_text e) "duplicate key" ≡ true)
        × ((name : Bytes) → find (db.insert insert_query new s).1 name ≡ find s name)
  pub near : (t : Time) → (columns.rounded t ≤ t + 1000) × (t ≤ columns.rounded t + 1000)

-- The documented behaviour of strings.Contains: a text is found in one that has it in the middle.
abbrev pub FindsInfix : (String → String → Bool) → Type 0
FindsInfix contains =
    (before infix_text later : String)
    → contains (str_append (str_append before infix_text) later) infix_text ≡ true

role_round_trip : (r : Role) → map_to_role_entity (role_string r) ≡ r
unfolding map_to_role_entity role_string
role_round_trip no_role = refl
role_round_trip user_role = refl
role_round_trip admin_role = refl

module _ {S : Type 0} (db : Database S) (contains : String → String → Bool) (shown : Bytes → String)
    (columns : Columns) (find : S → Bytes → Option UserRow)
    (table : IsUsersTable db contains columns find) where
  -- The insertion's row and the state after it.
  abbrev row_of : User → S → NewUser
  unfolding new_row
  row_of user s = new_row db contains shown user (db.now s)

  abbrev after : User → S → S
  unfolding row_of
  after user s = (db.insert insert_query (row_of user s) s).1

  row_of-IsStorableRow :
      (user : User) (s : S)
      → IsStorable columns user.username user.hashed_password user.display_name
      → IsStorableRow columns (row_of user s)
  unfolding row_of new_row IsStorableRow
  row_of-IsStorableRow user s fits = (fits, (user.role, refl))

  -- What an insertion that succeeded leaves to be read.
  read_after :
      (user : User) (id : ℤ) (s : S)
      → (db.insert insert_query (row_of user s) s).0 ≡ row id
      → (insert_user db contains shown user s ≡ (ok id, after user s))
        × (get_user db contains shown user.username (after user s)
            ≡ ok (record user {
              id = id;
              created_at = unix_milli (some (columns.rounded (db.now s)));
              updated_at = unix_milli (some (columns.rounded (db.now s)));
            }))
  unfolding insert_user get_user user_of_row row_of after
  read_after user id s inserted = (
    rw (insert_user, table.prepares insert_query s, inserted) refl,
    rw
        (
          get_user,
          table.prepares username_query (after user s),
          table.selects user.username (after user s),
          table.keeps (row_of user s) id s inserted,
        )
        (ap
          (λ r. ok (record user {
            id = id;
            created_at = unix_milli (some (columns.rounded (db.now s)));
            updated_at = unix_milli (some (columns.rounded (db.now s)));
            role = r;
          }))
          (role_round_trip user.role)),
  )

  -- A user whose name is new and whose values the columns take is read back as he was inserted, with
  -- the id that the database gave and, to the microsecond, the time of the insertion.
  pub insert_user-get_user :
      (user : User) (s : S)
      → IsStorable columns user.username user.hashed_password user.display_name
      → find s user.username ≡ none
      → let (inserted, s') = insert_user db contains shown user s in
        (id : ℤ) × (t : Time) × (inserted ≡ ok id)
        × (t ≤ db.now s + 1000)
        × (db.now s ≤ t + 1000)
        × (get_user db contains shown user.username s'
            ≡ ok (record user {
              id = id;
              created_at = unix_milli (some t);
              updated_at = unix_milli (some t);
            }))
  unfolding row_of
  insert_user-get_user user s fits fresh =
      let (id, inserted) =
        table.inserts (row_of user s) s (row_of-IsStorableRow user s fits) fresh in
      let (ran, read) = read_after user id s inserted in
      let (late, early) = table.near (db.now s) in
      (
        id,
        columns.rounded (db.now s),
        ap (λ r. r.0) ran,
        late,
        early,
        ap (λ r. get_user db contains shown user.username r.1) ran ∙ read,
      )

  -- An insertion of a name that is taken changes no row, and its error says so.
  insert_user_again :
      (user : User) (old : UserRow) (s : S)
      → IsStorable columns user.username user.hashed_password user.display_name
      → find s user.username ≡ some old
      → (e : GoError) × (insert_user db contains shown user s
          ≡ (err (text (str_append "duplicate username: " (error_text e))), after user s))
        × ((name : Bytes) → find (after user s) name ≡ find s name)
  unfolding insert_user after row_of
  insert_user_again user old s fits taken =
      let (e, refused, says, same) =
        table.refuses (row_of user s) old s (row_of-IsStorableRow user s fits) taken in
      (e, rw (insert_user, table.prepares insert_query s, refused, says) refl, same)

  module _ (env : Environment S) (infix_found : FindsInfix contains) where
    -- The user service on this repository.
    abbrev pub service : Environment S
    service = with_repository db contains shown env

    duplicate_found :
        (e : String) → contains (str_append "duplicate username: " e) "duplicate" ≡ true
    duplicate_found e =
        ap (λ t. contains t "duplicate") (str_append_assoc "duplicate" " username: " e)
        ∙ infix_found "" "duplicate" (str_append " username: " e)

    -- Who signs up, in the right form and with values that the columns take, with an address that is
    -- taken changes no row, and is answered 400 with the message that the name exists.
    pub sign_up_again :
        (email password hash : Bytes) (old : UserRow) (s : S)
        → is_valid email ≡ true
        → leb (length password) 0 ≡ false
        → env.hash_password password s ≡ ok hash
        → IsStorable columns email hash (get_display_name email)
        → find s email ≡ some old
        → let (answer, s') = sign_up service (record { email = email; password = password }) s in
          ((name : Bytes) → find s' name ≡ find s name)
          × ((e : GoError) × (answer ≡ err e)
              × (to_http_json e ≡ (
                err_message "username already exists" "username already exists",
                status_bad_request,
              )))
    unfolding sign_up with_repository to_http_json new
    sign_up_again email password hash old s valid some_password hashed fits taken =
        let user = new_user email (get_display_name email) hash (service.now_millis s) in
        let (e, again, same) = insert_user_again user old s fits taken in
        let refused : service.insert_user user s
            ≡ (some (text (str_append "duplicate username: " (error_text e))), after user s) =
          ap without_id again in
        rw (sign_up, valid, some_password, hashed, refused, duplicate_found (error_text e))
          (λ name. ap (λ r. find r.1 name) refused ∙ same name, (_, refl, refl))

    -- An address that nobody has signed up with is answered 500 by a login in the right form.
    pub login_unknown :
        (email password : Bytes) (s : S)
        → is_valid email ≡ true
        → leb (length password) 0 ≡ false
        → find s email ≡ none
        → (e : GoError) × (login service (record { email = email; password = password }) s ≡ err e)
          × ((to_http_json e).1 ≡ status_internal_server_error)
    unfolding login with_repository get_user to_http_json wrap err_internal
    login_unknown email password s valid some_password unknown =
        let missing : get_user db contains shown email s
            ≡ err (
                text (str_append "result with username " (str_append (shown email) " not found"))) =
          rw (get_user, table.prepares username_query s, table.selects email s, unknown) refl in
        (
          app (
              wrap "service.Login"
                (some (
                  text
                    (str_append "result with username " (str_append (shown email) " not found"))))
                err_internal),
          rw (login, valid, some_password, missing) refl,
          refl,
        )
