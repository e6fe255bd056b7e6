-- ===== src/Server/Projects.antt =====
-- The handlers of /projects and /projects/{projectID} in internal/server/projects.go.
use fin_guard.Prelude.{String, Option, none, some, List, ◌==◌, if◌then◌else◌, Result, ok, err}
use fin_guard.Models.{Project}
use fin_guard.Store.Db.{Db, Env}
use fin_guard.Store.Projects.{
  create_project, get_project, list_projects, update_project, delete_project,
}
use fin_guard.Server.Reply.{
  Reply, reply, Handler, error_body, status_body, project_body, projects_body,
}

-- The body of `handleCreateProject`.
pub record CreateProject : Type 0 where
  pub name : String
  pub description : String

-- The body of `handleUpdateProject`: a field that is absent is `none`.
pub record UpdateProject : Type 0 where
  pub name : Option String
  pub description : Option String

abbrev pub project_of : CreateProject → Project
project_of req = record {
  id = "";
  name = req.name;
  description = req.description;
  created_at = 0;
  updated_at = 0;
}

-- A field of the project, unless the body gives one.
abbrev pub or_kept : String → Option String → String
or_kept kept none = kept
or_kept kept (some given) = given

abbrev pub merge : UpdateProject → Project → Project
merge req p = record p {
  name = or_kept p.name req.name;
  description = or_kept p.description req.description;
}

module _ {R : Type 0} where
  abbrev pub created : Result Project × Db R → Reply R × Db R
  created (ok p, db) = (reply 201 (project_body p), db)
  created (err e, db) = (reply 500 (error_body "failed to create project"), db)

  unfoldable pub handle_create_project : Env → Option CreateProject → Handler R
  handle_create_project e none db = (reply 400 (error_body "invalid request body"), db)
  handle_create_project e (some req) db =
      if req.name == ""
      then (reply 400 (error_body "name is required"), db)
      else created (create_project e (project_of req) db)

  abbrev pub found : Result (Option Project) → Reply R
  found (err e) = reply 500 (error_body "failed to get project")
  found (ok none) = reply 404 (error_body "project not found")
  found (ok (some p)) = reply 200 (project_body p)

  unfoldable pub handle_get_project : Env → String → Handler R
  handle_get_project e id db = (found (get_project e id db), db)

  abbrev pub listed : Result (List Project) → Reply R
  listed (err e) = reply 500 (error_body "failed to list projects")
  listed (ok ps) = reply 200 (projects_body ps)

  unfoldable pub handle_list_projects : Env → Handler R
  handle_list_projects e db = (listed (list_projects e db), db)

  abbrev pub updated : Result Project × Db R → Reply R × Db R
  updated (ok p, db) = (reply 200 (project_body p), db)
  updated (err e, db) = (reply 500 (error_body "failed to update project"), db)

  -- The rest of `handleUpdateProject`, from the row that it read.
  unfoldable pub apply_update : Env → Option UpdateProject → Result (Option Project) → Handler R
  apply_update e req (err f) db = (reply 500 (error_body "failed to get project"), db)
  apply_update e req (ok none) db = (reply 404 (error_body "project not found"), db)
  apply_update e none (ok (some p)) db = (reply 400 (error_body "invalid request body"), db)
  apply_update e (some req) (ok (some p)) db = updated (update_project e (merge req p) db)

  -- The environments of the read and of the write.
  unfoldable pub handle_update_project : Env → Env → String → Option UpdateProject → Handler R
  unfolding apply_update
  handle_update_project reading writing id req db =
      apply_update writing req (get_project reading id db) db

  abbrev pub deleted : String → Result (Unit {0}) × Db R → Reply R × Db R
  deleted what (ok _, db) = (reply 200 (status_body "deleted"), db)
  deleted what (err e, db) = (reply 500 (error_body what), db)

  unfoldable pub handle_delete_project : Env → String → Handler R
  handle_delete_project e id db = deleted "failed to delete project" (delete_project e id db)
