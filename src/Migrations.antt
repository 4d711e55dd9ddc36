-- ===== src/Migrations.antt =====
-- alembic: the migrations, and what the commands `alembic upgrade` and `alembic downgrade` do with
-- them. A command runs the statements of a migration one after another, stops at the first that the
-- database refuses, and records the new revision when all have passed. MySQL rolls no DDL back.
pub mod Versions
pub mod Stages
pub mod Layout
pub mod Commands
pub mod Seed
pub mod Upserted
pub mod Seeded
use mathlib.Core.List
use parcel_delivery_api.Base.{
  ℕ, zero, suc, ◌≡◌, String, Bool, true, false, Option, none, some, List, [], ◌∷◌, ◌==◌, is_text,
  if◌then◌else◌,
}
use parcel_delivery_api.Base.Rows.{Has, first}
use parcel_delivery_api.Db.Ddl.{Ddl, Statement, Effect, changes, refused, unspecified, apply}
use Versions.{Migration, versions}

abbrev same_revision : Option String → Option String → Bool
same_revision none none = true
same_revision none (some b) = false
same_revision (some a) none = false
same_revision (some a) (some b) = a == b

-- The migration that revises a revision, and the one that made it.
abbrev pub next_migration : Option String → Option Migration
next_migration r = first (λ m. same_revision m.down_revision r) versions

abbrev pub last_migration : Option String → Option Migration
last_migration r = first (λ m. is_text r m.revision) versions

module _ (ddl : Ddl) where
  -- `version` is the row of alembic_version.
  pub record Migrated : Type 0 where
    pub version : Option String
    pub catalog : ddl.Catalog

  -- context.run_migrations, for the statements of one migration: whether all have passed
  unfoldable pub run_statements : List Statement → ddl.Catalog → Bool × ddl.Catalog
  run_statements [] c = (true, c)
  run_statements (st ∷ sts) c = elim (ddl.run_statement st c) [
    | none ↦ (false, c)
    | some c' ↦ run_statements sts c'
  ]

  abbrev pub record_version : Option String → Option String → Bool × ddl.Catalog → Bool × Migrated
  record_version before after (true, c) = (true, record { version = after; catalog = c })
  record_version before after (false, c) = (false, record { version = before; catalog = c })

  -- alembic upgrade +1, and alembic downgrade -1
  unfoldable pub upgrade : Migrated → Bool × Migrated
  upgrade d = elim (next_migration d.version) [
    | none ↦ (true, d)
    | some m ↦ record_version d.version (some m.revision) (run_statements m.upgrade d.catalog)
  ]

  unfoldable pub downgrade : Migrated → Bool × Migrated
  downgrade d = elim (last_migration d.version) [
    | none ↦ (true, d)
    | some m ↦ record_version d.version m.down_revision (run_statements m.downgrade d.catalog)
  ]

  -- The databases that commands which end well lead to, from one without tables.
  pub data Reached : Migrated → Type 0 where
    start : (c : ddl.Catalog) → ddl.schema c ≡ [] → Reached (record { version = none; catalog = c })
    upgraded : (d e : Migrated) → Reached d → upgrade d ≡ (true, e) → Reached e
    downgraded : (d e : Migrated) → Reached d → downgrade d ≡ (true, e) → Reached e
