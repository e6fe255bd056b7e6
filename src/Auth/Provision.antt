-- ===== src/Auth/Provision.antt =====
-- `provisionUser` and `syncGroup` of internal/auth/auth.go.
pub mod Again
use fin_guard.Prelude.{
  ℕ, ◌+◌, String, Option, none, some, List, [], ◌∷◌, ◌==◌, if◌then◌else◌, Result, ok, err,
}
use fin_guard.Models.{User, Group}
use fin_guard.Store.Db.{Db, Env, Exec}
use fin_guard.Store.Users.{create_user, get_user_by_email, get_user_by_oidc_subject}
use fin_guard.Store.Groups.{create_group, add_group_member, get_group_by_oidc_claim}

-- The calls of the store that one `syncGroup` makes.
pub record SyncEnvs : Type 0 where
  pub looking : Env
  pub creating : Env
  pub adding : Env

-- Those of one `provisionUser`.
pub record ProvisionEnvs : Type 0 where
  pub by_subject : Env
  pub by_email : Env
  pub creating : Env
  pub syncing : ℕ → SyncEnvs

abbrev pub group_of : String → Group
group_of claim = record { id = ""; name = claim; oidc_claim = claim; created_at = 0 }

abbrev pub user_of : String → String → String → User
user_of subject email name = record {
  id = "";
  email = email;
  display_name = if name == "" then email else name;
  oidc_subject = subject;
  created_at = 0;
}

module _ {R : Type 0} where
  -- `m.store.AddGroupMember`; an error is logged.
  unfoldable pub join : Env → Group → String → Db R → Db R
  join e group user_id db = (add_group_member e group.id user_id db).1

  -- After `CreateGroup`.
  abbrev pub joined : Env → String → Result Group × Db R → Db R
  joined e user_id (ok group, db) = join e group user_id db
  joined e user_id (err f, db) = db

  -- After the look-up of the group.
  abbrev pub synced : SyncEnvs → String → String → Result (Option Group) → Db R → Db R
  synced es claim user_id (err f) db = db
  synced es claim user_id (ok none) db =
      joined es.adding user_id (create_group es.creating (group_of claim) db)
  synced es claim user_id (ok (some group)) db = join es.adding group user_id db

  unfoldable pub sync_group : SyncEnvs → String → String → Db R → Db R
  unfolding join
  sync_group es claim user_id db =
      synced es claim user_id (get_group_by_oidc_claim es.looking claim db) db

  -- The loop over the claims, from the `n`-th on.
  unfoldable pub sync_groups : (ℕ → SyncEnvs) → ℕ → List String → String → Db R → Db R
  sync_groups es n [] user_id db = db
  sync_groups es n (claim ∷ claims) user_id db =
      sync_groups es (n + 1) claims user_id (sync_group (es n) claim user_id db)

  -- After `CreateUser`.
  abbrev pub enrolled : ProvisionEnvs → List String → Result User × Db R → Result User × Db R
  enrolled es groups (ok u, db) = (ok u, sync_groups es.syncing 0 groups u.id db)
  enrolled es groups (err f, db) = (err f, db)

  -- After the look-up by the address.
  abbrev pub by_address :
      ProvisionEnvs → String → String → String → List String → Result (Option User) → Exec R User
  by_address es subject email name groups (err f) db = (err f, db)
  by_address es subject email name groups (ok (some u)) db = (ok u, db)
  by_address es subject email name groups (ok none) db =
      enrolled es groups (create_user es.creating (user_of subject email name) db)

  -- After the look-up by the subject.
  abbrev pub by_identity :
      ProvisionEnvs → String → String → String → List String → Result (Option User) → Exec R User
  by_identity es subject email name groups (err f) db = (err f, db)
  by_identity es subject email name groups (ok (some u)) db = (ok u, db)
  by_identity es subject email name groups (ok none) db =
      by_address es subject email name groups (get_user_by_email es.by_email email db) db

  unfoldable pub provision_user :
      ProvisionEnvs → String → String → String → List String → Exec R User
  unfolding sync_groups
  provision_user es subject email name groups db =
      by_identity es subject email name groups (get_user_by_oidc_subject es.by_subject subject db)
        db
