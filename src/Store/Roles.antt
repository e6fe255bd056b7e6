-- ===== src/Store/Roles.antt =====
-- The project roles of internal/store/sql.go.
use fin_guard.Prelude.{String, Option, List, ◌∷◌, [], ◌++◌, Bool, ◌&&◌, ◌||◌, ◌==◌, if◌then◌else◌}
use fin_guard.Prelude.{ok, foreign_key_violation, any, first, select, delete, update, sort}
use fin_guard.Models.{Project, ProjectRole, subject_user}
use fin_guard.Store.Db.{Db, Env, Exec, Query, fail, write, read, has_project}

-- The key of `project_roles`.
abbrev pub is_key : String → String → String → ProjectRole → Bool
is_key project_id subject_type subject_id r =
    r.project_id == project_id && r.subject_type == subject_type && r.subject_id == subject_id

abbrev pub same_key : ProjectRole → ProjectRole → Bool
same_key r q = is_key q.project_id q.subject_type q.subject_id r

module _ {R : Type 0} where
  -- INSERT … ON CONFLICT … DO UPDATE
  unfoldable pub set_project_role : Env → ProjectRole → Exec R (Unit {0})
  set_project_role e pr = write e λ db.
      if any (λ r. same_key r pr) db.project_roles
      then (
        ok tt,
        record db {
          project_roles =
              update (λ r. same_key r pr) (λ r. record r { role = pr.role }) db.project_roles;
        },
      )
      else if has_project pr.project_id db
      then (ok tt, record db { project_roles = db.project_roles ++ pr ∷ [] })
      else fail foreign_key_violation db

  unfoldable pub remove_project_role : Env → String → String → String → Exec R (Unit {0})
  remove_project_role e project_id subject_type subject_id = write e λ db. (
    ok tt,
    record db {
      project_roles = delete (is_key project_id subject_type subject_id) db.project_roles;
    },
  )

  unfoldable pub list_project_roles : Env → String → Query R (List ProjectRole)
  list_project_roles e project_id =
      read e λ db. ok (select (λ r. r.project_id == project_id) db.project_roles)

  unfoldable pub get_user_project_role : Env → String → String → Query R (Option ProjectRole)
  get_user_project_role e project_id user_id =
      read e λ db. ok (first (is_key project_id subject_user user_id) db.project_roles)

  -- The WHERE of `ListUserProjects` on a joined role.
  abbrev pub grants : String → Db R → ProjectRole → Bool
  grants user_id db r =
      (r.subject_type == subject_user && r.subject_id == user_id)
      || any (λ m. m.user_id == user_id && m.group_id == r.subject_id) db.group_members

  -- A project with no role joins a row of NULLs, which the WHERE refuses; DISTINCT leaves one row for
  -- each project.
  unfoldable pub list_user_projects : Env → String → Query R (List Project)
  list_user_projects e user_id = read e λ db. ok (
      sort (λ p q. e.collate p.name q.name)
        (select (λ p. any (λ r. p.id == r.project_id && grants user_id db r) db.project_roles)
          db.projects))
