-- ===== src/Store/Migrate/Again.antt =====
-- A second run of the migrations.
use fin_guard.Prelude.{
  ℕ, ◌+◌, ◌≤◌, String, Option, none, some, List, [], ◌∷◌, ◌++◌, ◌≡◌, refl, sym, ap, subst, ◌∙◌,
  false, All, ok, arith, inl, inr,
}
use fin_guard.Store.Effects.Records.{Result-cases}
use fin_guard.Store.Migrate.{
  FileNames, Schema, FileFaults, Faults, File, max_version, recorded, migrate, migrate_file,
  migrate_files, up_files, run_migrations,
}

max_version-append :
    (vs : List ℕ) (v : ℕ)
    → (max_version vs ≤ max_version (vs ++ v ∷ [])) × (v ≤ max_version (vs ++ v ∷ []))
unfolding max_version
max_version-append [] v = (omega arith, ground arith)
max_version-append (w ∷ vs) v =
    let (l, r) = max_version-append vs v in (ground (arith, l), ground (arith, r))

-- The file's version, if its name has one, is none that a run would apply.
abbrev IsOld : ℕ → Option ℕ → Type 0
IsOld current none = Unit {0}
IsOld current (some v) = v ≤ current

IsOld-mono : (a b : ℕ) (v : Option ℕ) → a ≤ b → IsOld a v → IsOld b v
IsOld-mono a b none l o = tt
IsOld-mono a b (some v) l o = omega (arith, l, o)

module _ {S : Type 0} (names : FileNames) (apply : String → S → Option S) where
  recorded_versions :
      (f : FileFaults) (v : ℕ) (db db' : Schema S) (state : Option S)
      → recorded names apply f v db state ≡ ok db'
      → (max_version db.versions ≤ max_version db'.versions) × (v ≤ max_version db'.versions)
  recorded_versions f v db db' none h = absurd (ground arith)
  recorded_versions f v db db' (some state) h =
      let (l, r) = max_version-append db.versions v in (ground (arith, l), ground (arith, r))

  migrate_file-IsOld :
      (current : ℕ) (f : FileFaults) (v : Option ℕ) (content : String) (db db' : Schema S)
      → current ≤ max_version db.versions
      → migrate_file names apply current f v content db ≡ ok db'
      → (max_version db.versions ≤ max_version db'.versions) × IsOld (max_version db'.versions) v
  unfolding migrate_file migrate
  migrate_file-IsOld current f none content db db' l h = (ground arith, tt)
  migrate_file-IsOld current f (some v) content db db' l h = (
    ground (arith, recorded_versions f v db db' (apply content db.state)),
    ground (arith, recorded_versions f v db db' (apply content db.state)),
  )

  -- What one round of the loop leaves to the rest.
  AllOld : ℕ → List File → Type 0
  AllOld current = All (λ f. IsOld current (names.version_of f.0))

  migrate_files_next :
      (current : ℕ) (faults : ℕ → FileFaults) (n : ℕ) (name content : String) (files : List File)
      (db mid : Schema S)
      → migrate_file names apply current (faults n) (names.version_of name) content db ≡ ok mid
      → migrate_files names apply current faults (n + 1) files mid
        ≡ migrate_files names apply current faults n ((name, content) ∷ files) db
  unfolding migrate_files
  migrate_files_next current faults n name content files db mid e = rw (e, migrate_files) refl

  -- The versions have grown, and none of the files is above them.
  abbrev Grown : Schema S → List File → Schema S → Type 0
  Grown db files db' =
      (max_version db.versions ≤ max_version db'.versions) × AllOld (max_version db'.versions) files

  migrate_files-AllOld :
      (current : ℕ) (faults : ℕ → FileFaults) (n : ℕ) (files : List File) (db : Schema S)
      → current ≤ max_version db.versions
      → (migrate_files names apply current faults n files db).0 ≡ ok tt
      → (max_version db.versions
          ≤ max_version (migrate_files names apply current faults n files db).1.versions)
        × AllOld
            (max_version (migrate_files names apply current faults n files db).1.versions)
            files
  unfolding migrate_files AllOld
  migrate_files-AllOld current faults n [] db l h = (omega arith, tt)
  migrate_files-AllOld current faults n ((name, content) ∷ files) db l h =
      elim (Result-cases
        (migrate_file names apply current (faults n) (names.version_of name) content db)) [
          | inr (e, eq) ↦ absurd (ground arith)
          | inl (mid, eq) ↦
              let (grown, old) =
                migrate_file-IsOld current (faults n) (names.version_of name) content db mid l eq in
              let (more, rest) =
                migrate_files-AllOld current faults (n + 1) files mid (omega (arith, l, grown))
                  (ground arith) in
              subst (λ x. Grown db ((name, content) ∷ files) x.1)
                (migrate_files_next current faults n name content files db mid eq)
                (
                  omega (arith, grown, more),
                  (IsOld-mono _ _ (names.version_of name) more old, rest),
                )
        ]

  skipped :
      (current : ℕ) (f : FileFaults) (v : Option ℕ) (content : String) (db : Schema S)
      → IsOld current v
      → migrate_file names apply current f v content db ≡ ok db
  unfolding migrate_file
  skipped current f none content db o = refl
  skipped current f (some v) content db o = ground (arith, o)

  all_skipped :
      (current : ℕ) (faults : ℕ → FileFaults) (n : ℕ) (files : List File) (db : Schema S)
      → AllOld current files
      → migrate_files names apply current faults n files db ≡ (ok tt, db)
  unfolding migrate_files AllOld
  all_skipped current faults n [] db a = refl
  all_skipped current faults n ((name, content) ∷ files) db (o, a) =
      rw (skipped current (faults n) (names.version_of name) content db o, migrate_files)
        (all_skipped current faults (n + 1) files db a)

  ran :
      (f : Faults) (files : List File) (db : Schema S)
      → (run_migrations names apply f files db).0 ≡ ok tt
      → run_migrations names apply f files db
        ≡ migrate_files names apply (max_version db.versions) f.file 0 (up_files names files) db
  unfolding run_migrations
  ran f files db h = ground arith

  run_old :
      (again : Faults) (files : List File) (db : Schema S)
      → again.creating ≡ false
      → again.querying ≡ false
      → again.listing ≡ false
      → AllOld (max_version db.versions) (up_files names files)
      → run_migrations names apply again files db ≡ (ok tt, db)
  unfolding run_migrations
  run_old again files db c q l a =
      rw (c, q, l) (all_skipped (max_version db.versions) again.file 0 (up_files names files) db a)

  run_migrations-AllOld :
      (f : Faults) (files : List File) (db : Schema S)
      → (run_migrations names apply f files db).0 ≡ ok tt
      → AllOld
          (max_version (run_migrations names apply f files db).1.versions)
          (up_files names files)
  run_migrations-AllOld f files db h =
      let e = ran f files db h in
      subst (λ x. AllOld (max_version x.1.versions) (up_files names files)) (sym e)
        (migrate_files-AllOld (max_version db.versions) f.file 0 (up_files names files) db
          (omega arith) (ap (λ x. x.0) (sym e) ∙ h)).1

  -- Where `runMigrations` has returned no error, a second run over the same files, whose own three
  -- queries do not fail, returns no error, applies nothing and leaves the database as it is, in
  -- whatever order the files were and whichever versions they have.
  pub run_migrations_again :
      (f again : Faults) (files : List File) (db : Schema S)
      → (run_migrations names apply f files db).0 ≡ ok tt
      → again.creating ≡ false
      → again.querying ≡ false
      → again.listing ≡ false
      → run_migrations names apply again files (run_migrations names apply f files db).1
        ≡ (ok tt, (run_migrations names apply f files db).1)
  run_migrations_again f again files db h c q l =
      run_old again files _ c q l (run_migrations-AllOld f files db h)
