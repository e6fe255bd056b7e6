-- ===== src/Store/RoundTrip.antt =====
-- What a read returns after a write: creation and look-up of projects and users, and the roles.
use fin_guard.Prelude.{
  String, some, List, [], ◌∷◌, ◌≡◌, ◌≢◌, refl, ap, ◌∙◌, ◌++◌, update, Bool, true, false, ◌==◌,
  arith, eq_iff, eq_refl, if◌then◌else◌, ok, any, first, first-append, first-none,
  first-update_other, Bool-cases, inl, inr,
}
use fin_guard.Models.{Project, User, ProjectRole, subject_user}
use fin_guard.Store.Db.{Db, Env, UserRow}
use fin_guard.Store.Users
use fin_guard.Store.Users.{null_eq}
use fin_guard.Store.Projects.{create_project, get_project, clash}
use fin_guard.Store.Users.{create_user, get_user_by_oidc_subject, get_user, scan_user, user_row}
use fin_guard.Store.Roles.{set_project_role, get_user_project_role, is_key, same_key}

any-clash_id :
    (row : Project) (ps : List Project)
    → any (λ q. clash q row) ps ≡ false
    → any (λ q. q.id == row.id) ps ≡ false
unfolding any
any-clash_id row [] h = refl
any-clash_id row (p ∷ ps) h = ground (arith, any-clash_id row ps)

-- After a creation that returned `row`, `GetProject` at the row's id returns the row, and at any other
-- id what it returned before.
pub get_project-create_project :
    {R : Type 0} (e e' : Env) (p row : Project) (k : String) (db : Db R)
    → (create_project e p db).0 ≡ ok row
    → e'.fault ≡ false
    → get_project e' k (create_project e p db).1
      ≡ (if row.id == k then ok (some row) else get_project e' k db)
unfolding create_project get_project first
get_project-create_project e e' p row k db h up = ground (
  arith,
  any-clash_id row db.projects,
  first-append (λ q. q.id == k) db.projects row,
  first-none (λ q. q.id == k) db.projects,
  eq_iff row.id k,
)

-- Scanning a row that was written gives the user back: an empty subject is NULL and empty again.
scan-user_row : (u : User) → scan_user (user_row u) ≡ u
scan-user_row u = ground (arith, eq_iff u.oidc_subject "")

any-clash_subject :
    (row : UserRow) (us : List UserRow) (s : String)
    → row.oidc_subject ≡ some s
    → any (λ v. Users.clash v row) us ≡ false
    → any (λ v. null_eq v.oidc_subject (some s)) us ≡ false
unfolding any
any-clash_subject row [] s r h = refl
any-clash_subject row (v ∷ us) s r h =
    ground (arith, any-clash_subject row us s, ap (null_eq v.oidc_subject) r)

created_user :
    {R : Type 0} (e : Env) (given u : User) (db : Db R)
    → (create_user e given db).0 ≡ ok u
    → (any (λ v. Users.clash v (user_row u)) db.users ≡ false)
      × ((create_user e given db).1 ≡ record db { users = db.users ++ user_row u ∷ [] })
unfolding create_user
created_user e given u db h = ground arith

first-last :
    {A : Type 0} (p : A → Bool) (xs : List A) (y : A)
    → any p xs ≡ false
    → p y ≡ true
    → first p (xs ++ y ∷ []) ≡ some y
unfolding first
first-last p xs y h k = ground (arith, first-append p xs y)

first-append_other :
    {A : Type 0} (p : A → Bool) (xs : List A) (y : A)
    → p y ≡ false
    → first p (xs ++ y ∷ []) ≡ first p xs
unfolding first
first-append_other p xs y k = ground (arith, first-append p xs y, first-none p xs)

-- A user who was created with a subject is found by that subject, as created.
pub get_user_by_oidc_subject-create_user :
    {R : Type 0} (e e' : Env) (given u : User) (db : Db R)
    → (create_user e given db).0 ≡ ok u
    → e'.fault ≡ false
    → u.oidc_subject ≢ ""
    → get_user_by_oidc_subject e' u.oidc_subject (create_user e given db).1 ≡ ok (some u)
unfolding get_user_by_oidc_subject
get_user_by_oidc_subject-create_user e e' given u db h up some_subject =
    let (new, after) = created_user e given u db h in
    let stored : (user_row u).oidc_subject ≡ some u.oidc_subject =
      ground (arith, eq_iff u.oidc_subject "") in
    let found =
      first-last (λ v. null_eq v.oidc_subject (some u.oidc_subject)) db.users (user_row u)
        (any-clash_subject (user_row u) db.users u.oidc_subject stored new)
        (ap (λ o. null_eq o (some u.oidc_subject)) stored ∙ eq_refl u.oidc_subject) in
    rw (after, up, found) (ap (λ v. ok (some v)) (scan-user_row u))

module _ (pr : ProjectRole) (project_id user_id : String) where
  abbrev asked : ProjectRole → Bool
  asked = is_key project_id subject_user user_id

  same-asked : (r : ProjectRole) → same_key r pr ≡ true → asked r ≡ asked pr
  same-asked r h = ground (
    arith,
    eq_iff r.project_id pr.project_id,
    eq_iff r.subject_type pr.subject_type,
    eq_iff r.subject_id pr.subject_id,
  )

  asked-same : (r : ProjectRole) → asked pr ≡ true → asked r ≡ true → same_key r pr ≡ true
  asked-same r h k = ground (
    arith,
    eq_iff pr.project_id project_id,
    eq_iff pr.subject_type "user",
    eq_iff pr.subject_id user_id,
  )

  upsert_self : (r : ProjectRole) → same_key r pr ≡ true → record r { role = pr.role } ≡ pr
  upsert_self r h = ground (
    arith,
    eq_iff r.project_id pr.project_id,
    eq_iff r.subject_type pr.subject_type,
    eq_iff r.subject_id pr.subject_id,
  )

  abbrev upserted : List ProjectRole → List ProjectRole
  upserted = update (λ r. same_key r pr) (λ r. record r { role = pr.role })

  upsert_other :
      asked pr ≡ false → (rs : List ProjectRole) → first asked (upserted rs) ≡ first asked rs
  upsert_other n =
      first-update_other asked _ _ (λ r h. same-asked r h ∙ n) (λ r h. same-asked r h ∙ n)

  upsert_found :
      asked pr ≡ true
      → (rs : List ProjectRole) → any (λ r. same_key r pr) rs ≡ true
      → first asked (upserted rs) ≡ some pr
  unfolding any first update
  upsert_found k [] h = ground arith
  upsert_found k (r ∷ rs) h = elim (Bool-cases (same_key r pr)) [
    | inl same ↦ rw (same, same-asked r same ∙ k) (ap some (upsert_self r same))
    | inr other ↦ elim (Bool-cases (asked r)) [
      | inl kr ↦ absurd (ground (arith, asked-same r k kr))
      | inr kr ↦ rw (other, kr) (upsert_found k rs (ground arith))
    ]
  ]

  first-upsert :
      (rs : List ProjectRole)
      → any (λ r. same_key r pr) rs ≡ true
      → first asked (upserted rs) ≡ (if asked pr then some pr else first asked rs)
  first-upsert rs h = elim (Bool-cases (asked pr)) [
    | inl k ↦ rw k (upsert_found k rs h)
    | inr n ↦ rw n (upsert_other n rs)
  ]

  any-asked :
      (rs : List ProjectRole)
      → asked pr ≡ true
      → any (λ r. same_key r pr) rs ≡ false
      → any asked rs ≡ false
  unfolding any
  any-asked [] k h = refl
  any-asked (r ∷ rs) k h = ground (arith, asked-same r, any-asked rs)

  first-new :
      (rs : List ProjectRole)
      → any (λ r. same_key r pr) rs ≡ false
      → first asked (rs ++ pr ∷ []) ≡ (if asked pr then some pr else first asked rs)
  unfolding first
  first-new rs h = elim (Bool-cases (asked pr)) [
    | inl k ↦ rw k (first-last asked rs pr (any-asked rs k h) k)
    | inr n ↦ rw n (first-append_other asked rs pr n)
  ]

-- `SetProjectRole` gives a user that role on the project, whether there was one before or not, and
-- leaves the roles of the other users and of the other projects as they were.
pub get_user_project_role-set_project_role :
    {R : Type 0} (e e' : Env) (pr : ProjectRole) (project_id user_id : String) (db : Db R)
    → (set_project_role e pr db).0 ≡ ok tt
    → e'.fault ≡ false
    → get_user_project_role e' project_id user_id (set_project_role e pr db).1 ≡ (
        if is_key project_id subject_user user_id pr
        then ok (some pr)
        else get_user_project_role e' project_id user_id db)
unfolding set_project_role get_user_project_role
get_user_project_role-set_project_role e e' pr project_id user_id db h up = ground (
  arith,
  first-upsert pr project_id user_id db.project_roles,
  first-new pr project_id user_id db.project_roles,
)
