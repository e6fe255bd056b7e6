-- ===== src/Tests/Server.antt =====
-- Requests to the project routes on the small tables.
use fin_guard.Models.{Project}
use fin_guard.Prelude.{◌==◌, if◌then◌else◌, none, some, ◌≡◌, refl, any, arith}
use fin_guard.Float64.{whole}
use fin_guard.Store.Projects.{create_project}
use fin_guard.Server.Reply.{reply, project_body}
use fin_guard.Server.Projects.{
  CreateProject, UpdateProject, handle_get_project, handle_create_project,
}
use fin_guard.Server.Members.{AddMember}
use fin_guard.Server.Request.{serve, post_project}
use fin_guard.Server.Request.Writes.{serve-error_unchanged}
use fin_guard.Server.Request.Answers.{handle_get_project-handle_create_project}
use fin_guard.Tests.Fixtures.{up, small}

abbrev gamma : CreateProject
gamma = record { name = "gamma"; description = "new" }

abbrev taken : CreateProject
taken = record { name = "alpha"; description = "new" }

handle_get_project-handle_create_project_example :
    (p : Project) × (p.name ≡ "gamma")
    × (p.description ≡ "new")
    × ((handle_create_project up (some gamma) small).0 ≡ reply 201 (project_body p))
    × ((handle_get_project up "new" (handle_create_project up (some gamma) small).1).0 ≡ (
        if p.id == "new"
        then reply 200 (project_body p)
        else (handle_get_project up "new" small).0))
unfolding handle_create_project create_project any
handle_get_project-handle_create_project_example =
    handle_get_project-handle_create_project up up gamma "new" small refl refl

-- A name that is taken is answered 500.
serve-error_unchanged_example : (serve whole up up (post_project (some taken)) small).1 ≡ small
unfolding serve handle_create_project create_project any
serve-error_unchanged_example =
    serve-error_unchanged whole up up (post_project (some taken)) small (omega arith)

abbrev described : UpdateProject
described = record { name = none; description = some "renewed" }

abbrev editing : AddMember
editing = record { subject_type = "user"; subject_id = "u2"; role = "editor" }
