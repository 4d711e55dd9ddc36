-- ===== src/Migrations/Commands.antt =====
-- The databases that `alembic upgrade` and `alembic downgrade` lead to.
use mathlib.Core.Path.{subst}
use parcel_delivery_api.Base.{
  ◌≡◌, ◌≢◌, refl, sym, ap, ◌∙◌, String, true, Option, none, some, List, [], ◌∷◌, arith, ◌==◌,
  if◌then◌else◌,
}
use parcel_delivery_api.Db.Ddl.{Ddl, apply}
use parcel_delivery_api.Models.Metadata.{metadata}
use parcel_delivery_api.Migrations.{
  Migrated, Reached, start, upgraded, downgraded, upgrade, downgrade, next_migration,
}
use parcel_delivery_api.Migrations.Stages.{
  Stage, base, created, seeded, decimal, checked, owned, current, revision, schema_of, effects,
  IsAt, IsAt-upgrade, IsAt-downgrade, IsAt-refused,
}
use parcel_delivery_api.Migrations.Layout.{SameLayout, current-SameLayout}

abbrev pub after : Stage → Stage
after base = created
after created = seeded
after seeded = decimal
after decimal = checked
after checked = owned
after owned = current
after current = current

abbrev stage_named : List (String × Stage) → String → Stage
stage_named [] r = base
stage_named ((s, k) ∷ rest) r = if s == r then k else stage_named rest r

abbrev stage_at : Option String → Stage
stage_at none = base
stage_at (some r) =
    stage_named
      (("45dd304438ec", created)
        ∷ ("0c8ee6e20a41", seeded)
        ∷ ("a1b2c3d4e5f6", decimal)
        ∷ ("b2c3d4e5f6a7", checked)
        ∷ ("c3d4e5f6a7b8", owned)
        ∷ ("d4e5f6a7b8c9", current)
        ∷ [])
      r

stage_at-revision : (k : Stage) → stage_at (revision k) ≡ k
stage_at-revision base = refl
stage_at-revision created = refl
stage_at-revision seeded = refl
stage_at-revision decimal = refl
stage_at-revision checked = refl
stage_at-revision owned = refl
stage_at-revision current = refl

no_next_migration : (k : Stage) → next_migration (revision k) ≡ none → k ≡ current
no_next_migration current h = refl
no_next_migration base h = absurd (ground arith)
no_next_migration created h = absurd (ground arith)
no_next_migration seeded h = absurd (ground arith)
no_next_migration decimal h = absurd (ground arith)
no_next_migration checked h = absurd (ground arith)
no_next_migration owned h = absurd (ground arith)

module _ (ddl : Ddl) where
  abbrev pub Staged : Migrated ddl → Type 0
  Staged d = (k : Stage) × IsAt ddl k d

  IsAt-same : (k : Stage) (d e : Migrated ddl) → IsAt ddl k d → d ≡ e → IsAt ddl k e
  IsAt-same k d e h same = subst (IsAt ddl k) same h

  pub IsAt-after :
      (k : Stage) (d e : Migrated ddl)
      → IsAt ddl k d
      → upgrade ddl d ≡ (true, e)
      → IsAt ddl (after k) e
  unfolding schema_of effects apply upgrade
  IsAt-after base d e h u = IsAt-upgrade ddl base created _ d e h refl refl refl u
  IsAt-after created d e h u = IsAt-upgrade ddl created seeded _ d e h refl refl refl u
  IsAt-after seeded d e h u = IsAt-upgrade ddl seeded decimal _ d e h refl refl refl u
  IsAt-after decimal d e h u = IsAt-upgrade ddl decimal checked _ d e h refl refl refl u
  IsAt-after checked d e h u = IsAt-upgrade ddl checked owned _ d e h refl refl refl u
  IsAt-after owned d e h u = IsAt-upgrade ddl owned current _ d e h refl refl refl u
  IsAt-after current d e h u =
      IsAt-same current d e h (ap (λ x. x.1) (rw (upgrade, h.version) at u))

  Staged-downgrade :
      (k : Stage) (d e : Migrated ddl) → IsAt ddl k d → downgrade ddl d ≡ (true, e) → Staged e
  unfolding schema_of effects apply downgrade
  Staged-downgrade base d e h u =
      (base, IsAt-same base d e h (ap (λ x. x.1) (rw (downgrade, h.version) at u)))
  Staged-downgrade created d e h u =
      (base, IsAt-downgrade ddl created base _ d e h refl refl refl u)
  Staged-downgrade seeded d e h u =
      (created, IsAt-downgrade ddl seeded created _ d e h refl refl refl u)
  Staged-downgrade decimal d e h u =
      (seeded, IsAt-downgrade ddl decimal seeded _ d e h refl refl refl u)
  Staged-downgrade checked d e h u =
      (decimal, IsAt-downgrade ddl checked decimal _ d e h refl refl refl u)
  Staged-downgrade owned d e h u =
      (checked, IsAt-downgrade ddl owned checked _ d e h refl refl refl u)
  Staged-downgrade current d e h u = absurd (IsAt-refused ddl current current _ d e h refl refl u)

  pub Reached-Staged : (d : Migrated ddl) → Reached ddl d → Staged d
  unfolding schema_of
  Reached-Staged d (start c h) = (base, record { version = refl; schema = h })
  Reached-Staged _ (upgraded d e r u) =
      let (k, h) = Reached-Staged d r in (after k, IsAt-after k d e h u)
  Reached-Staged _ (downgraded d e r u) =
      let (k, h) = Reached-Staged d r in Staged-downgrade k d e h u

  IsAt-head :
      (d : Migrated ddl) → Reached ddl d → next_migration d.version ≡ none → IsAt ddl current d
  IsAt-head d r h =
      let (k, at_k) = Reached-Staged d r in
      subst (λ l. IsAt ddl l d) (no_next_migration k (rw at_k.version at h)) at_k

  -- However upgrades and downgrades that pass follow one another from a database without tables, the
  -- schema depends on the revision alone: two databases that they lead to have the same schema when
  -- they have the same revision.
  pub schema_of_revision :
      (d e : Migrated ddl)
      → Reached ddl d
      → Reached ddl e
      → d.version ≡ e.version
      → ddl.schema d.catalog ≡ ddl.schema e.catalog
  schema_of_revision d e r s same =
      let (k, at_k) = Reached-Staged d r in
      let (l, at_l) = Reached-Staged e s in
      let both : k ≡ l =
        sym (stage_at-revision k)
        ∙ ap stage_at (sym at_k.version ∙ same ∙ at_l.version)
        ∙ stage_at-revision l in
      at_k.schema ∙ ap schema_of both ∙ sym at_l.schema

  -- In a database that upgrades and downgrades that pass lead to, and for which no migration is left,
  -- the tables are those that app/models declares, each with the same columns, types, nullability,
  -- primary key, unique columns, foreign keys, CHECK constraints and indexed columns.
  pub head_is_metadata :
      (d : Migrated ddl)
      → Reached ddl d
      → next_migration d.version ≡ none
      → SameLayout (ddl.schema d.catalog) metadata
  head_is_metadata d r h =
      subst (λ s. SameLayout s metadata) (sym (IsAt-head d r h).schema) current-SameLayout

  -- In a database that upgrades and downgrades that pass lead to, and for which no migration is left,
  -- `alembic downgrade` never passes, whatever the rows are: it drops the only index of a foreign key,
  -- which MySQL refuses.
  pub head_downgrade_fails :
      (d e : Migrated ddl)
      → Reached ddl d
      → next_migration d.version ≡ none
      → downgrade ddl d ≢ (true, e)
  unfolding schema_of effects apply
  head_downgrade_fails d e r h = IsAt-refused ddl current current _ d e (IsAt-head d r h) refl refl
