-- ===== src/Auth/Provision/Again.antt =====
-- A second sign-in with the same identity.
use fin_guard.Prelude.{
  ℕ, ◌+◌, String, Option, none, some, List, [], ◌∷◌, ◌≡◌, ◌≢◌, refl, sym, ◌∙◌, ap, subst, false,
  Result, ok, err, arith,
}
use fin_guard.Models.{User}
use fin_guard.Store.Db.{Db, Env}
use fin_guard.Store.Users.{create_user, get_user_by_email, get_user_by_oidc_subject}
use fin_guard.Store.Groups.{create_group, add_group_member}
use fin_guard.Store.RoundTrip.{get_user_by_oidc_subject-create_user}
use fin_guard.Auth.Provision.{
  SyncEnvs, ProvisionEnvs, user_of, join, sync_group, sync_groups, enrolled, by_address,
  by_identity, provision_user,
}

module _ {R : Type 0} where
  sync_group-users :
      (es : SyncEnvs) (claim user_id : String) (db : Db R)
      → (sync_group es claim user_id db).users ≡ db.users
  unfolding sync_group join create_group add_group_member
  sync_group-users es claim user_id db = ground arith

  sync_groups-users :
      (es : ℕ → SyncEnvs) (n : ℕ) (claims : List String) (user_id : String) (db : Db R)
      → (sync_groups es n claims user_id db).users ≡ db.users
  unfolding sync_groups
  sync_groups-users es n [] user_id db = refl
  sync_groups-users es n (c ∷ cs) user_id db =
      sync_groups-users es (n + 1) cs user_id (sync_group (es n) c user_id db)
      ∙ sync_group-users (es n) c user_id db

  -- A look-up shows the users' table alone, and the same where no engine fails.
  by_subject_again :
      (e e' : Env) (subject : String) (o : Option User) (db db' : Db R)
      → db'.users ≡ db.users
      → e'.fault ≡ false
      → get_user_by_oidc_subject e subject db ≡ ok o
      → get_user_by_oidc_subject e' subject db' ≡ ok o
  unfolding get_user_by_oidc_subject
  by_subject_again e e' subject o db db' same up h = rw (same, up) (ground arith)

  by_email_again :
      (e e' : Env) (email : String) (o : Option User) (db : Db R)
      → e'.fault ≡ false
      → get_user_by_email e email db ≡ ok o
      → get_user_by_email e' email db ≡ ok o
  unfolding get_user_by_email
  by_email_again e e' email o db up h = rw up (ground arith)

  create_user-subject :
      (e : Env) (given u : User) (db : Db R)
      → (create_user e given db).0 ≡ ok u
      → u.oidc_subject ≡ given.oidc_subject
  unfolding create_user
  create_user-subject e given u db h = ground arith

module _ {R : Type 0} (es again : ProvisionEnvs) (subject email name : String)
    (groups : List String) where
  -- The second sign-in finds the user by the subject, or by the address.
  found_again :
      (u : User) (db : Db R)
      → get_user_by_oidc_subject again.by_subject subject db ≡ ok (some u)
      → (provision_user again subject email name groups db).0 ≡ ok u
  unfolding provision_user
  found_again u db h = rw h refl

  found_by_address :
      (u : User) (db : Db R)
      → get_user_by_oidc_subject again.by_subject subject db ≡ ok none
      → get_user_by_email again.by_email email db ≡ ok (some u)
      → (provision_user again subject email name groups db).0 ≡ ok u
  unfolding provision_user
  found_by_address u db h k = rw (h, k) refl

  enrolled_again :
      (u : User) (db : Db R)
      → subject ≢ ""
      → again.by_subject.fault ≡ false
      → (made : Result User × Db R) → create_user es.creating (user_of subject email name) db ≡ made
      → (enrolled es groups made).0 ≡ ok u
      → (provision_user again subject email name groups (enrolled es groups made).1).0 ≡ ok u
  enrolled_again u db given up (err f, db') e h = absurd (ground arith)
  enrolled_again u db given up (ok v, db') e h =
      let v≡u : v ≡ u = ground arith in
      let made = ap (λ x. x.0) e in
      let named = create_user-subject es.creating (user_of subject email name) v db made in
      let found =
        get_user_by_oidc_subject-create_user es.creating again.by_subject
          (user_of subject email name) v db made up (λ z. given (sym named ∙ z)) in
      found_again u _ (
        by_subject_again again.by_subject again.by_subject subject (some u) db' _
          (sync_groups-users es.syncing 0 groups v.id db') up
          (subst (λ s. get_user_by_oidc_subject again.by_subject s db' ≡ ok (some v)) named
              (subst
                (λ x. get_user_by_oidc_subject again.by_subject v.oidc_subject x.1 ≡ ok (some v)) e
                found)
            ∙ ap (λ w. ok (some w)) v≡u))

  address_again :
      (u : User) (db : Db R)
      → subject ≢ ""
      → again.by_subject.fault ≡ false
      → again.by_email.fault ≡ false
      → get_user_by_oidc_subject again.by_subject subject db ≡ ok none
      → (r : Result (Option User)) → get_user_by_email es.by_email email db ≡ r
      → (by_address es subject email name groups r db).0 ≡ ok u
      → (provision_user again subject email name groups
          (by_address es subject email name groups r db).1).0
        ≡ ok u
  address_again u db given up up' none_yet (err f) e h = absurd (ground arith)
  address_again u db given up up' none_yet (ok (some v)) e h =
      let v≡u : v ≡ u = ground arith in
      found_by_address u db none_yet (
        by_email_again es.by_email again.by_email email (some v) db up' e
        ∙ ap (λ w. ok (some w)) v≡u)
  address_again u db given up up' none_yet (ok none) e h =
      enrolled_again u db given up (create_user es.creating (user_of subject email name) db) refl h

  identity_again :
      (u : User) (db : Db R)
      → subject ≢ ""
      → again.by_subject.fault ≡ false
      → again.by_email.fault ≡ false
      → (r : Result (Option User)) → get_user_by_oidc_subject es.by_subject subject db ≡ r
      → (by_identity es subject email name groups r db).0 ≡ ok u
      → (provision_user again subject email name groups
          (by_identity es subject email name groups r db).1).0
        ≡ ok u
  identity_again u db given up up' (err f) e h = absurd (ground arith)
  identity_again u db given up up' (ok (some v)) e h =
      let v≡u : v ≡ u = ground arith in
      found_again u db (
        by_subject_again es.by_subject again.by_subject subject (some v) db db refl up e
        ∙ ap (λ w. ok (some w)) v≡u)
  identity_again u db given up up' (ok none) e h =
      address_again u db given up up'
        (by_subject_again es.by_subject again.by_subject subject none db db refl up e)
        (get_user_by_email es.by_email email db) refl h

  -- Where `provisionUser` returned a user for a subject that is not empty, a second call for the same
  -- identity returns the same user, whichever of the two look-ups or the creation gave it and whatever
  -- became of the groups, provided that the look-ups of the second call do not fail.
  pub provision_user_again :
      (u : User) (db : Db R)
      → subject ≢ ""
      → again.by_subject.fault ≡ false
      → again.by_email.fault ≡ false
      → (provision_user es subject email name groups db).0 ≡ ok u
      → (provision_user again subject email name groups
          (provision_user es subject email name groups db).1).0
        ≡ ok u
  unfolding provision_user
  provision_user_again u db given up up' h =
      identity_again u db given up up' (get_user_by_oidc_subject es.by_subject subject db) refl h
