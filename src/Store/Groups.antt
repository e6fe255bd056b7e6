-- ===== src/Store/Groups.antt =====
-- The groups and their members of internal/store/sql.go. The two texts of `AddGroupMember`, one for
-- each driver, have one meaning: a row that is there already is left as it is.
use mathlib.Core.Option
use fin_guard.Prelude.{
  String, Option, some, List, ◌∷◌, [], ◌++◌, Bool, ◌&&◌, ◌||◌, ◌==◌, if◌then◌else◌, map,
}
use fin_guard.Prelude.{
  ok, unique_violation, foreign_key_violation, any, first, select, delete, sort,
}
use fin_guard.Models.{Group, User}
use fin_guard.Store.Db.{GroupRow, GroupMember, Env, Exec, Query, fail, write, read, given_id}
use fin_guard.Store.Users.{null_string, string_of, null_eq, scan_user}

abbrev pub scan_group : GroupRow → Group
scan_group r = record {
  id = r.id;
  name = r.name;
  oidc_claim = string_of r.oidc_claim;
  created_at = r.created_at;
}

abbrev pub group_row : Group → GroupRow
group_row g = record {
  id = g.id;
  name = g.name;
  oidc_claim = null_string g.oidc_claim;
  created_at = g.created_at;
}

-- Two rows that the keys of `groups` keep apart; the claim is no key.
abbrev pub clash : GroupRow → GroupRow → Bool
clash g h = g.id == h.id || g.name == h.name

abbrev pub same_member : GroupMember → GroupMember → Bool
same_member m n = m.group_id == n.group_id && m.user_id == n.user_id

abbrev pub stamp_group : Env → Group → Group
stamp_group e g = record g { id = given_id e g.id; created_at = e.now }

module _ {R : Type 0} where
  unfoldable pub create_group : Env → Group → Exec R Group
  create_group e given = write e λ db.
      let g = stamp_group e given in
      if any (λ h. clash h (group_row g)) db.groups
      then fail unique_violation db
      else (ok g, record db { groups = db.groups ++ group_row g ∷ [] })

  abbrev pub find_group : Env → (GroupRow → Bool) → Query R (Option Group)
  find_group e found = read e λ db. ok (Option.map scan_group (first found db.groups))

  unfoldable pub get_group : Env → String → Query R (Option Group)
  get_group e id = find_group e λ g. g.id == id

  unfoldable pub get_group_by_oidc_claim : Env → String → Query R (Option Group)
  get_group_by_oidc_claim e claim = find_group e λ g. null_eq g.oidc_claim (some claim)

  unfoldable pub list_groups : Env → Query R (List Group)
  list_groups e = read e λ db. ok (map scan_group (sort (λ g h. e.collate g.name h.name) db.groups))

  unfoldable pub add_group_member : Env → String → String → Exec R (Unit {0})
  add_group_member e group_id user_id = write e λ db.
      let row : GroupMember = record { group_id = group_id; user_id = user_id } in
      if any (λ m. same_member m row) db.group_members
      then (ok tt, db)
      else if any (λ g. g.id == group_id) db.groups && any (λ u. u.id == user_id) db.users
      then (ok tt, record db { group_members = db.group_members ++ row ∷ [] })
      else fail foreign_key_violation db

  unfoldable pub remove_group_member : Env → String → String → Exec R (Unit {0})
  remove_group_member e group_id user_id = write e λ db. (
    ok tt,
    record db {
      group_members = delete (λ m. m.group_id == group_id && m.user_id == user_id) db.group_members;
    },
  )

  -- The join: a user for each of the group's members, of which each names one user.
  unfoldable pub list_group_members : Env → String → Query R (List User)
  list_group_members e group_id = read e λ db. ok (
      map scan_user (
        sort (λ u v. e.collate u.email v.email)
          (select (λ u. any (λ m. m.group_id == group_id && m.user_id == u.id) db.group_members)
            db.users)))
