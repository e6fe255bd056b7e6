-- ===== src/Server/Request/Answers.antt =====
-- What a later request is answered, after one that wrote.
use fin_guard.Prelude.{String, some, ◌≡◌, refl, true, false, ◌==◌, if◌then◌else◌, ok, arith, is_ok}
use fin_guard.Models.{Project}
use fin_guard.Store.Db.{Db, Env}
use fin_guard.Store.Projects.{stamp_project, create_project}
use fin_guard.Store.RoundTrip.{get_project-create_project}
use fin_guard.Server.Reply.{reply, project_body}
use fin_guard.Server.Projects.{CreateProject, project_of, handle_create_project, handle_get_project}

-- The row that a creation returns is the stamped one.
created_row :
    {R : Type 0} (e : Env) (p : Project) (db : Db R)
    → is_ok (create_project e p db).0 ≡ true
    → (create_project e p db).0 ≡ ok (stamp_project e p)
unfolding create_project
created_row e p db h = ground (arith, h)

-- A POST of a project that is answered 201 is answered with a project of the name and the description of
-- the body. A GET at its id is then answered 200 with that project, and a GET at any other id as before.
pub handle_get_project-handle_create_project :
    {R : Type 0} (e later : Env) (req : CreateProject) (k : String) (db : Db R)
    → (handle_create_project e (some req) db).0.status ≡ 201
    → later.fault ≡ false
    → (p : Project) × (p.name ≡ req.name)
      × (p.description ≡ req.description)
      × ((handle_create_project e (some req) db).0 ≡ reply 201 (project_body p))
      × ((handle_get_project later k (handle_create_project e (some req) db).1).0
          ≡ (if p.id == k then reply 200 (project_body p) else (handle_get_project later k db).0))
unfolding handle_create_project handle_get_project
handle_get_project-handle_create_project e later req k db h up =
    let row = stamp_project e (project_of req) in
    (
      row,
      refl,
      refl,
      ground (arith, h, created_row e (project_of req) db),
      ground (
        arith,
        h,
        created_row e (project_of req) db,
        get_project-create_project e later (project_of req) row k db,
      ),
    )
