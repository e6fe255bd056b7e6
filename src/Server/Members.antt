-- ===== src/Server/Members.antt =====
-- The handlers of /projects/{projectID}/members in internal/server/projects.go.
use fin_guard.Prelude.{String, Option, none, some, List, ◌==◌, if◌then◌else◌, Result, ok, err}
use fin_guard.Models.{ProjectRole, subject_user}
use fin_guard.Store.Db.{Db, Env}
use fin_guard.Store.Roles.{set_project_role, remove_project_role, list_project_roles}
use fin_guard.Server.Reply.{
  Reply, reply, Handler, error_body, status_body, member_body, members_body,
}

-- The body of `handleAddProjectMember`.
pub record AddMember : Type 0 where
  pub subject_type : String
  pub subject_id : String
  pub role : String

abbrev pub role_of : String → AddMember → ProjectRole
role_of project_id req = record {
  project_id = project_id;
  subject_type = req.subject_type;
  subject_id = req.subject_id;
  role = req.role;
}

module _ {R : Type 0} where
  abbrev pub listed : Result (List ProjectRole) → Reply R
  listed (err e) = reply 500 (error_body "failed to list members")
  listed (ok rs) = reply 200 (members_body rs)

  unfoldable pub handle_list_project_members : Env → String → Handler R
  handle_list_project_members e project_id db = (listed (list_project_roles e project_id db), db)

  abbrev pub added : ProjectRole → Result (Unit {0}) × Db R → Reply R × Db R
  added pr (ok _, db) = (reply 201 (member_body pr), db)
  added pr (err e, db) = (reply 500 (error_body "failed to add member"), db)

  unfoldable pub handle_add_project_member : Env → String → Option AddMember → Handler R
  handle_add_project_member e project_id none db =
      (reply 400 (error_body "invalid request body"), db)
  handle_add_project_member e project_id (some req) db =
      let pr = role_of project_id req in added pr (set_project_role e pr db)

  abbrev pub removed : Result (Unit {0}) × Db R → Reply R × Db R
  removed (ok _, db) = (reply 200 (status_body "removed"), db)
  removed (err e, db) = (reply 500 (error_body "failed to remove member"), db)

  -- The kind of subject is the query parameter, empty where it is absent.
  unfoldable pub handle_remove_project_member : Env → String → String → String → Handler R
  handle_remove_project_member e project_id subject_id given db =
      let subject_type = if given == "" then subject_user else given in
      removed (remove_project_role e project_id subject_type subject_id db)
