-- ===== src/Server/Request.antt =====
-- The requests to the routes under /projects as data, and the handler that internal/server/server.go
-- mounts for each.
pub mod Writes
pub mod Answers
use fin_guard.Prelude.{String, Option}
use fin_guard.Float64.{Float64}
use fin_guard.Store.Db.{Db, Env}
use fin_guard.Server.Reply.{Reply, Handler}
use fin_guard.Server.Projects.{
  CreateProject, UpdateProject, handle_create_project, handle_get_project, handle_list_projects,
  handle_update_project, handle_delete_project,
}
use fin_guard.Server.Sources.{
  CreateSource, handle_create_cost_source, handle_list_cost_sources, handle_get_cost_source,
  handle_delete_cost_source, handle_get_project_costs,
}
use fin_guard.Server.Members.{
  AddMember, handle_list_project_members, handle_add_project_member, handle_remove_project_member,
}

-- The path's identifiers, then the body or the query parameter.
pub data Request : Type 0 where
  post_project : Option CreateProject → Request
  get_project_by : String → Request
  get_projects : Request
  put_project : String → Option UpdateProject → Request
  delete_project_by : String → Request
  post_source : String → Option CreateSource → Request
  get_sources : String → Request
  get_source_by : String → String → Request
  delete_source_by : String → String → Request
  get_members : String → Request
  post_member : String → Option AddMember → Request
  delete_member : String → String → String → Request
  get_costs : String → Request

module _ (F : Float64) where
  open F use {Carrier}

  -- The environments of the call that reads and of the call that writes; most requests make one call.
  unfoldable pub serve : Env → Env → Request → Handler Carrier
  serve reading e (post_project req) = handle_create_project e req
  serve reading e (get_project_by id) = handle_get_project reading id
  serve reading e get_projects = handle_list_projects reading
  serve reading e (put_project id req) = handle_update_project reading e id req
  serve reading e (delete_project_by id) = handle_delete_project e id
  serve reading e (post_source id req) = handle_create_cost_source e id req
  serve reading e (get_sources id) = handle_list_cost_sources reading id
  serve reading e (get_source_by id s) = handle_get_cost_source reading id s
  serve reading e (delete_source_by id s) = handle_delete_cost_source e id s
  serve reading e (get_members id) = handle_list_project_members reading id
  serve reading e (post_member id req) = handle_add_project_member e id req
  serve reading e (delete_member id s given) = handle_remove_project_member e id s given
  serve reading e (get_costs id) = handle_get_project_costs F reading id
