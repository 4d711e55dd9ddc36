-- ===== src/Migrations/Stages.antt =====
-- The schema that each revision stands for, and the way from one to the next.
use parcel_delivery_api.Base.{
  ◌≡◌, ◌≢◌, refl, sym, ap, ◌∙◌, String, Bool, true, false, Option, none, some, List, [], ◌∷◌, arith,
  Option-cases, inl, inr, ◌⊎◌,
}
use parcel_delivery_api.Db.Schema.{Schema}
use parcel_delivery_api.Db.Ddl.{Ddl, Statement, Effect, changes, refused, unspecified, apply}
use parcel_delivery_api.Migrations.{
  Migrated, record_version, run_statements, upgrade, downgrade, next_migration, last_migration,
}
use parcel_delivery_api.Migrations.Versions.{Migration}

-- What statements do to a schema, one after another.
unfoldable pub effects : List Statement → Schema → Effect
effects [] s = changes s
effects (st ∷ sts) s = elim (apply st s) [
  | changes s' ↦ effects sts s'
  | refused ↦ refused
  | unspecified ↦ unspecified
]

pub data Stage : Type 0 where
  base created seeded decimal checked owned current : Stage

abbrev pub revision : Stage → Option String
revision base = none
revision created = some "45dd304438ec"
revision seeded = some "0c8ee6e20a41"
revision decimal = some "a1b2c3d4e5f6"
revision checked = some "b2c3d4e5f6a7"
revision owned = some "c3d4e5f6a7b8"
revision current = some "d4e5f6a7b8c9"

abbrev upgrade_of : Stage → List Statement
upgrade_of k = elim (next_migration (revision k)) [ none ↦ [] | some m ↦ m.upgrade ]

abbrev reached_by : List Statement → Schema → Schema
reached_by sts s = elim (effects sts s) [ changes s' ↦ s' | _ ↦ s ]

-- The upgrades from the stages, the last one first.
abbrev applied : List Stage → Schema
applied [] = []
applied (k ∷ ks) = reached_by (upgrade_of k) (applied ks)

abbrev before : Stage → List Stage
before base = []
before created = base ∷ []
before seeded = created ∷ base ∷ []
before decimal = seeded ∷ created ∷ base ∷ []
before checked = decimal ∷ seeded ∷ created ∷ base ∷ []
before owned = checked ∷ decimal ∷ seeded ∷ created ∷ base ∷ []
before current = owned ∷ checked ∷ decimal ∷ seeded ∷ created ∷ base ∷ []

unfoldable pub schema_of : Stage → Schema
schema_of k = applied (before k)

pub Effect-cases :
    (e : Effect) → ((s : Schema) × (e ≡ changes s)) ⊎ ((e ≡ refused) ⊎ (e ≡ unspecified))
Effect-cases (changes s) = inl (s, refl)
Effect-cases refused = inr (inl refl)
Effect-cases unspecified = inr (inr refl)

module _ (ddl : Ddl) where
  run-changes :
      (sts : List Statement) (c c' : ddl.Catalog) (s : Schema)
      → effects sts (ddl.schema c) ≡ changes s
      → run_statements ddl sts c ≡ (true, c')
      → ddl.schema c' ≡ s
  unfolding run_statements effects
  run-changes [] c c' s h r = ground arith
  run-changes (st ∷ sts) c c' s h r = elim (Effect-cases (apply st (ddl.schema c))) [
    | inl (s1, e) ↦ elim (Option-cases (ddl.run_statement st c)) [
      | inl f ↦ absurd (ground (arith, f))
      | inr (c1, f) ↦
          let same : ddl.schema c1 ≡ s1 = ddl.changes_lem st c c1 s1 e f in
          run-changes sts c1 c' s (ground (arith, same, e)) (ground (arith, f))
    ]
    | inr f ↦ absurd (ground (arith, f))
  ]

  -- Statements one of which the schema itself refuses do not pass, whatever the rows are.
  run-refused :
      (sts : List Statement) (c c' : ddl.Catalog)
      → effects sts (ddl.schema c) ≡ refused
      → run_statements ddl sts c ≢ (true, c')
  unfolding run_statements effects
  run-refused [] c c' h r = ground arith
  run-refused (st ∷ sts) c c' h r = elim (Effect-cases (apply st (ddl.schema c))) [
    | inl (s1, e) ↦ elim (Option-cases (ddl.run_statement st c)) [
      | inl f ↦ absurd (ground (arith, f))
      | inr (c1, f) ↦
          let same : ddl.schema c1 ≡ s1 = ddl.changes_lem st c c1 s1 e f in
          run-refused sts c1 c' (ground (arith, same, e)) (ground (arith, f))
    ]
    | inr (inl e) ↦ absurd (ground (arith, ddl.refused_lem st c e))
    | inr (inr e) ↦ absurd (ground (arith, e))
  ]

  -- The database is at the stage.
  pub record IsAt (k : Stage) (d : Migrated ddl) : Type 0 where
    pub version : d.version ≡ revision k
    pub schema : ddl.schema d.catalog ≡ schema_of k

  recorded :
      (before after : Option String) (r : Bool × ddl.Catalog) (e : Migrated ddl)
      → record_version ddl before after r ≡ (true, e)
      → (c : ddl.Catalog) × (r ≡ (true, c)) × (record { version = after; catalog = c } ≡ e)
  recorded before after (true, c) e h = (c, refl, ap (λ x. x.1) h)
  recorded before after (false, c) e h = absurd (ground (arith, ap (λ x. x.0) h))

  module _ (k l : Stage) (m : Migration) (d e : Migrated ddl) (at_k : IsAt k d) where
    IsAt-recorded :
        (v r : Option String) (sts : List Statement)
        → r ≡ revision l
        → effects sts (schema_of k) ≡ changes (schema_of l)
        → record_version ddl v r (run_statements ddl sts d.catalog) ≡ (true, e)
        → IsAt l e
    IsAt-recorded v r sts same f h =
        let (c, passed, made) = recorded v r (run_statements ddl sts d.catalog) e h in
        record {
          version = ap (λ x. x.version) (sym made) ∙ same;
          schema =
              ap (λ x. ddl.schema x.catalog) (sym made)
              ∙ run-changes sts d.catalog c (schema_of l) (ap (effects sts) at_k.schema ∙ f) passed;
        }

    pub IsAt-upgrade :
        next_migration (revision k) ≡ some m
        → some m.revision ≡ revision l
        → effects m.upgrade (schema_of k) ≡ changes (schema_of l)
        → upgrade ddl d ≡ (true, e)
        → IsAt l e
    unfolding upgrade
    IsAt-upgrade n r f u =
        IsAt-recorded d.version (some m.revision) m.upgrade r f (rw (upgrade, at_k.version, n) at u)

    pub IsAt-downgrade :
        last_migration (revision k) ≡ some m
        → m.down_revision ≡ revision l
        → effects m.downgrade (schema_of k) ≡ changes (schema_of l)
        → downgrade ddl d ≡ (true, e)
        → IsAt l e
    unfolding downgrade
    IsAt-downgrade n r f u =
        IsAt-recorded d.version m.down_revision m.downgrade r f
          (rw (downgrade, at_k.version, n) at u)

    pub IsAt-refused :
        last_migration (revision k) ≡ some m
        → effects m.downgrade (schema_of k) ≡ refused
        → downgrade ddl d ≢ (true, e)
    unfolding downgrade
    IsAt-refused n f u =
        let u' = rw (downgrade, at_k.version, n) at u in
        let (c, passed, made) =
          recorded d.version m.down_revision (run_statements ddl m.downgrade d.catalog) e u' in
        run-refused m.downgrade d.catalog c (ap (effects m.downgrade) at_k.schema ∙ f) passed
