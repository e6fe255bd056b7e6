-- ===== src/Store/Open.antt =====
-- `New` and `parseDSN` of internal/store/sql.go, with what database/sql makes of each of their calls.
use Prim.Native.String.{len, slice}
use text.Mathlib.Text.{starts_with}
use mathlib.Core.Option.{some-injective}
use fin_guard.Prelude.{
  String, Option, none, some, ◌≡◌, refl, sym, ap, subst, ◌∙◌, ◌⊎◌, inl, inr, Bool-cases, Bool, true,
  false, not, ◌||◌, ◌==◌, if◌then◌else◌, arith,
}

-- `strings.TrimPrefix`
abbrev pub trim_prefix : String → String → String
trim_prefix s prefix = if starts_with s prefix then slice s (len prefix) (len s) else s

abbrev pub or_default : String → String
or_default conn = if conn == "" then "/tmp/finguard.db" else conn

-- The driver and its connection text.
unfoldable pub parse_dsn : String → String × String
parse_dsn dsn =
    if starts_with dsn "postgres://" || starts_with dsn "postgresql://"
    then ("pgx", dsn)
    else ("sqlite", or_default (trim_prefix (trim_prefix dsn "sqlite://") "sqlite:///"))

-- Which of the calls succeed: of sql.Open and Ping at a driver and a connection text, and of the two
-- statements PRAGMA.
pub record Driver : Type 0 where
  pub opens : String → String → Bool
  pub pings : Bool
  pub sets_wal : Bool
  pub enables_foreign_keys : Bool

pub record SqlStore : Type 0 where
  pub driver : String
  -- what the statements PRAGMA and SetMaxOpenConns set
  pub journal_wal : Bool
  pub foreign_keys : Bool
  pub one_connection : Bool

abbrev pub opened : Driver → String → Option SqlStore
opened d driver =
    if driver == "sqlite"
    then if not d.sets_wal || not d.enables_foreign_keys
      then none
      else some (record {
        driver = driver;
        journal_wal = true;
        foreign_keys = true;
        one_connection = true;
      })
    else some (record {
      driver = driver;
      journal_wal = false;
      foreign_keys = false;
      one_connection = false;
    })

-- `none` is an error.
unfoldable pub new : Driver → String → Option SqlStore
unfolding parse_dsn
new d dsn =
    let parsed = parse_dsn dsn in
    if not (d.opens parsed.0 parsed.1) || not d.pings then none else opened d parsed.0

abbrev IsEnforced : SqlStore → Type 0
IsEnforced s =
    (s.driver ≡ "pgx")
    ⊎ ((s.driver ≡ "sqlite") × (s.foreign_keys ≡ true) × (s.one_connection ≡ true))

opened-pgx : (d : Driver) (s : SqlStore) → opened d "pgx" ≡ some s → IsEnforced s
opened-pgx d s h = inl (sym (ap (λ x. x.driver) (some-injective _ s h)))

opened-sqlite : (d : Driver) (s : SqlStore) → opened d "sqlite" ≡ some s → IsEnforced s
opened-sqlite d s h = elim (Bool-cases (not d.sets_wal || not d.enables_foreign_keys)) [
  | inl e ↦ absurd (ground (arith, h, e))
  | inr e ↦
      let it = some-injective _ s (rw e at h) in
      inr (
        sym (ap (λ x. x.driver) it),
        sym (ap (λ x. x.foreign_keys) it),
        sym (ap (λ x. x.one_connection) it),
      )
]

parse_dsn-driver : (dsn : String) → ((parse_dsn dsn).0 ≡ "pgx") ⊎ ((parse_dsn dsn).0 ≡ "sqlite")
unfolding parse_dsn
parse_dsn-driver dsn =
    elim (Bool-cases (starts_with dsn "postgres://" || starts_with dsn "postgresql://")) [
      | inl e ↦ inl (rw e refl)
      | inr e ↦ inr (rw e refl)
    ]

new-opened :
    (d : Driver) (dsn : String) (s : SqlStore)
    → new d dsn ≡ some s
    → opened d (parse_dsn dsn).0 ≡ some s
unfolding new
new-opened d dsn s h =
    elim (Bool-cases (not (d.opens (parse_dsn dsn).0 (parse_dsn dsn).1) || not d.pings)) [
      | inl e ↦ absurd (ground (arith, h, e))
      | inr e ↦ sym (rw e refl) ∙ h
    ]

-- A store that `New` opened is one of PostgreSQL, or one of SQLite with its foreign keys enforced and a
-- single connection.
pub new_enforces :
    (d : Driver) (dsn : String) (s : SqlStore)
    → new d dsn ≡ some s
    → (s.driver ≡ "pgx")
      ⊎ ((s.driver ≡ "sqlite") × (s.foreign_keys ≡ true) × (s.one_connection ≡ true))
new_enforces d dsn s h =
    let made = new-opened d dsn s h in
    elim (parse_dsn-driver dsn) [
      | inl e ↦ opened-pgx d s (subst (λ x. opened d x ≡ some s) e made)
      | inr e ↦ opened-sqlite d s (subst (λ x. opened d x ≡ some s) e made)
    ]
