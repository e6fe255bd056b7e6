-- ===== src/Server/Request/Writes.antt =====
-- What a request does to the tables, by its status.
use fin_guard.Prelude.{◌≤◌, none, some, ◌≡◌, refl, arith}
use fin_guard.Float64.{Float64}
use fin_guard.Store.Db.{Db, Env}
use fin_guard.Store.Projects.{create_project, update_project, delete_project}
use fin_guard.Store.Sources.{create_cost_source, delete_cost_source}
use fin_guard.Store.Roles.{set_project_role, remove_project_role}
use fin_guard.Server.Projects.{
  apply_update, handle_create_project, handle_get_project, handle_list_projects,
  handle_update_project, handle_delete_project,
}
use fin_guard.Server.Sources.{
  handle_create_cost_source, handle_list_cost_sources, handle_get_cost_source,
  handle_delete_cost_source, handle_get_project_costs,
}
use fin_guard.Server.Members.{
  handle_list_project_members, handle_add_project_member, handle_remove_project_member,
}
use fin_guard.Server.Request.{Request, post_project, put_project, post_source, post_member, serve}

module _ (F : Float64) where
  open F use {Carrier}

  -- A request that is answered with an error status leaves every table as it was.
  pub serve-error_unchanged :
      (reading e : Env) (q : Request) (db : Db Carrier)
      → 400 ≤ (serve F reading e q db).0.status
      → (serve F reading e q db).1 ≡ db
  unfolding serve handle_create_project handle_update_project handle_delete_project apply_update
      handle_create_cost_source handle_delete_cost_source handle_add_project_member
      handle_remove_project_member handle_get_project handle_list_projects handle_list_cost_sources
      handle_get_cost_source handle_get_project_costs handle_list_project_members create_project
      update_project delete_project create_cost_source delete_cost_source set_project_role
      remove_project_role
  serve-error_unchanged reading e (post_project none) db h = refl
  serve-error_unchanged reading e (post_project (some req)) db h = ground arith
  serve-error_unchanged reading e (post_source id none) db h = refl
  serve-error_unchanged reading e (post_source id (some req)) db h = ground arith
  serve-error_unchanged reading e (post_member id none) db h = refl
  serve-error_unchanged reading e (post_member id (some req)) db h = ground arith
  serve-error_unchanged reading e (put_project id req) db h = ground arith
  serve-error_unchanged reading e _ db h = ground arith
