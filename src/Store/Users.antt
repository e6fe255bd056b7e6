-- ===== src/Store/Users.antt =====
-- The users of internal/store/sql.go.
use mathlib.Core.Option
use fin_guard.Prelude.{
  String, Option, some, none, List, ◌∷◌, [], ◌++◌, Bool, false, ◌||◌, ◌==◌, if◌then◌else◌, map,
}
use fin_guard.Prelude.{ok, unique_violation, any, first, sort}
use fin_guard.Models.{User}
use fin_guard.Store.Db.{UserRow, Env, Exec, Query, fail, write, read, given_id}

-- `nullString`: the empty text is stored as NULL.
abbrev pub null_string : String → Option String
null_string s = if s == "" then none else some s

-- `NullString.String`: NULL is read as the empty text.
abbrev pub string_of : Option String → String
string_of none = ""
string_of (some s) = s

-- NULLs are distinct in a UNIQUE column, and equal to no text.
abbrev pub null_eq : Option String → Option String → Bool
null_eq (some s) (some t) = s == t
null_eq _ _ = false

-- `rows.Scan` of a user.
abbrev pub scan_user : UserRow → User
scan_user r = record {
  id = r.id;
  email = r.email;
  display_name = r.display_name;
  oidc_subject = string_of r.oidc_subject;
  created_at = r.created_at;
}

abbrev pub user_row : User → UserRow
user_row u = record {
  id = u.id;
  email = u.email;
  display_name = u.display_name;
  oidc_subject = null_string u.oidc_subject;
  created_at = u.created_at;
}

-- Two rows that the keys of `users` keep apart.
abbrev pub clash : UserRow → UserRow → Bool
clash u v = u.id == v.id || u.email == v.email || null_eq u.oidc_subject v.oidc_subject

abbrev pub stamp_user : Env → User → User
stamp_user e u = record u { id = given_id e u.id; created_at = e.now }

module _ {R : Type 0} where
  unfoldable pub create_user : Env → User → Exec R User
  create_user e given = write e λ db.
      let u = stamp_user e given in
      if any (λ v. clash v (user_row u)) db.users
      then fail unique_violation db
      else (ok u, record db { users = db.users ++ user_row u ∷ [] })

  -- The three look-ups differ in the column.
  abbrev pub find_user : Env → (UserRow → Bool) → Query R (Option User)
  find_user e found = read e λ db. ok (Option.map scan_user (first found db.users))

  unfoldable pub get_user : Env → String → Query R (Option User)
  get_user e id = find_user e λ u. u.id == id

  unfoldable pub get_user_by_email : Env → String → Query R (Option User)
  get_user_by_email e email = find_user e λ u. u.email == email

  unfoldable pub get_user_by_oidc_subject : Env → String → Query R (Option User)
  get_user_by_oidc_subject e subject = find_user e λ u. null_eq u.oidc_subject (some subject)

  unfoldable pub list_users : Env → Query R (List User)
  list_users e = read e λ db. ok (map scan_user (sort (λ u v. e.collate u.email v.email) db.users))
