-- ===== src/Tests/Store.antt =====
-- The calls of the store on the small tables.
use fin_guard.Prelude.{String, ◌≡◌, ◌≢◌, refl, unique_violation, any, arith, ◌==◌, ap}
use fin_guard.Store.Projects.{create_project, delete_project}
use fin_guard.Store.Call.{run, creating_project}
use fin_guard.Store.References.Calls.{run-HasReferences, empty-HasReferences}
use fin_guard.Store.References.Defs.{HasReferences}
use fin_guard.Store.Keys.{HasKeys}
use fin_guard.Store.Keys.Calls.{run-HasKeys}
use fin_guard.Store.Atomic.{run-error_unchanged}
use fin_guard.Store.Deletion.{IsGone, Unchanged, delete_project-IsGone, delete_project_other}
use fin_guard.Tests.Fixtures.{up, json, beta, nothing, small}

run-HasReferences_example : HasReferences (run json (creating_project up beta) nothing).1
run-HasReferences_example =
    run-HasReferences json (creating_project up beta) nothing (empty-HasReferences json)

run-HasKeys_example : HasKeys (run json (creating_project up beta) nothing).1
run-HasKeys_example =
    run-HasKeys json (creating_project up beta) nothing (tt, tt, tt, tt, tt, tt, tt, tt)

-- A name that is taken.
run-error_unchanged_example :
    (run json (creating_project up (record beta { name = "alpha" })) small).1 ≡ small
unfolding run create_project any
run-error_unchanged_example =
    run-error_unchanged json (creating_project up (record beta { name = "alpha" })) small
      unique_violation refl

delete_project-IsGone_example : IsGone "p1" (delete_project up "p1" small).1
unfolding delete_project
delete_project-IsGone_example = delete_project-IsGone up "p1" small refl

differs : ◌≢◌ {A = String} "p2" "p1"
differs e = absurd (ground (arith, ap (λ s. s == "p2") e))

delete_project_other_example : Unchanged up "p2" small (delete_project up "p1" small).1
delete_project_other_example = delete_project_other up up "p1" "p2" small differs

has_subject : ◌≢◌ {A = String} "sub2" ""
has_subject e = absurd (ground (arith, ap (λ s. s == "sub2") e))
