-- ===== src/User/Repository.antt =====
-- services/user_app/repository/user.go, over database/sql: the database is a parameter on a state
-- `S`, and the texts of the queries are the source's. A time is in nanoseconds since 1970
-- here.
pub mod Laws
use Prim.Native.String.{◌++◌ as str_append}
use brain_blitz.Prelude.{ℕ, ◌/◌, String, Bool, true, false, Option, none, some, if◌then◌else◌}
use brain_blitz.Prelude.Int.{ℤ, pos}
use brain_blitz.Errors.{GoError, text, wrapped, error_text}
use brain_blitz.Game.Entity.{Time}
use brain_blitz.User.Email.{Bytes}
use brain_blitz.User.Service.{
  User, Reply, ok, err, Environment, no_role, role_string, map_to_role_entity,
}

-- The columns that a user is stored with; `none` is NULL.
pub record UserRow : Type 0 where
  pub id : ℤ
  pub username : Bytes
  pub password : Bytes
  pub display_name : Bytes
  pub role : String
  pub created_at : Option Time
  pub updated_at : Option Time

-- The arguments of the insertion.
pub record NewUser : Type 0 where
  pub username : Bytes
  pub password : Bytes
  pub display_name : Bytes
  pub role : String
  pub created_at : Option Time
  pub updated_at : Option Time

-- `Scan` on the row of a query: the row, sql.ErrNoRows, or another error.
pub data Row {ℓ} (A : Type ℓ) : Type ℓ where
  row : A → Row A
  no_rows : Row A
  failed : GoError → Row A

-- `*sql.DB`: what a query answers to its arguments, and the state after an insertion.
pub record Database (S : Type 0) : Type 0 where
  pub prepare : String → S → Option GoError
  pub insert : String → NewUser → S → Row ℤ × S
  pub select_by_username : String → Bytes → S → Row UserRow
  pub select_by_id : String → String → S → Row UserRow
  pub now : S → Time

abbrev pub insert_query : String
insert_query =
    "INSERT INTO users (username, password, display_name, role, created_at, updated_at) VALUES ($1,$2,$3,$4,$5,$6) RETURNING id;"

abbrev pub username_query : String
username_query =
    "SELECT id, username, password, display_name, role, created_at, updated_at FROM users WHERE username = $1 LIMIT 1"

abbrev pub id_query : String
id_query =
    "SELECT id, username, password, display_name, role, created_at, updated_at FROM users WHERE id = $1 LIMIT 1"

-- `uint64(t.Time.UTC().UnixMilli())`: the zero time of a NULL is the year 1.
abbrev pub unix_milli : Option Time → ℕ
unix_milli (some t) = t / 1000000
unix_milli none = 18446681938112751616

unfoldable pub user_of_row : UserRow → User
unfolding map_to_role_entity
user_of_row result = record {
  id = result.id;
  username = result.username;
  hashed_password = result.password;
  display_name = result.display_name;
  created_at = unix_milli result.created_at;
  updated_at = unix_milli result.updated_at;
  role = map_to_role_entity result.role;
}

-- `_, err = s.repository.InsertUser(ctx, userDto)`
abbrev pub without_id : {S : Type 0} → Reply ℤ × S → Option GoError × S
without_id (ok id, s') = (none, s')
without_id (err e, s') = (some e, s')

-- `shown` is how fmt prints a Go string.
module _ {S : Type 0} (db : Database S) (contains : String → String → Bool)
    (shown : Bytes → String) where
  abbrev pub insert_failure : Bytes → GoError → GoError
  unfolding error_text
  insert_failure username e =
      if contains (error_text e) "duplicate key"
      then text (str_append "duplicate username: " (error_text e))
      else text (
          str_append "failed to insert user " (
            str_append (shown username)
              (str_append " (username: " (str_append (error_text e) ")"))))

  abbrev pub new_row : User → Time → NewUser
  unfolding role_string
  new_row user now = record {
    username = user.username;
    password = user.hashed_password;
    display_name = user.display_name;
    role = role_string user.role;
    created_at = some now;
    updated_at = some now;
  }

  -- `sql: no rows in result set`, which an insertion that returns an id does not give.
  abbrev pub no_rows_error : GoError
  no_rows_error = text "sql: no rows in result set"

  unfoldable pub insert_user : User → S → Reply ℤ × S
  unfolding insert_failure new_row
  insert_user user s = elim (db.prepare insert_query s) [
    | some e ↦ (err (wrapped (str_append "failed to prepare statement: " (error_text e)) e), s)
    | none ↦
        let (answer, s') = db.insert insert_query (new_row user (db.now s)) s in
        elim answer [
          | row user_id ↦ (ok user_id, s')
          | no_rows ↦ (err (insert_failure user.username no_rows_error), s')
          | failed e ↦ (err (insert_failure user.username e), s')
        ]
  ]

  unfoldable pub get_user : Bytes → S → Reply User
  unfolding user_of_row
  get_user username s = elim (db.prepare username_query s) [
    | some e ↦
        err
          (wrapped (str_append "failed to prepare find result by ID statement: " (error_text e)) e)
    | none ↦ elim (db.select_by_username username_query username s) [
      | row result ↦ ok (user_of_row result)
      | no_rows ↦
          err (text (str_append "result with username " (str_append (shown username) " not found")))
      | failed e ↦ err (
          text (
            str_append "error retrieving user with username: "
              (str_append (shown username) (str_append ", error: " (error_text e)))))
    ]
  ]

  unfoldable pub get_user_by_id : String → S → Reply User
  unfolding user_of_row
  get_user_by_id id s = elim (db.prepare id_query s) [
    | some e ↦ err (
        wrapped
          (str_append "failed to prepare find result by ID: "
            (str_append id (str_append " statement: " (error_text e))))
          e)
    | none ↦ elim (db.select_by_id id_query id s) [
      | row result ↦ ok (user_of_row result)
      | no_rows ↦ err (text (str_append "result with id " (str_append id " not found")))
      | failed e ↦ err (
          text (
            str_append "error retrieving user with id: "
              (str_append id (str_append ", error: " (error_text e)))))
    ]
  ]

  -- The service's `Repository` is this one.
  unfoldable pub with_repository : Environment S → Environment S
  unfolding insert_user get_user get_user_by_id
  with_repository env = record env {
    insert_user = λ user s. without_id (insert_user user s);
    get_user = get_user;
    get_user_by_id = get_user_by_id;
    contains = contains;
  }
