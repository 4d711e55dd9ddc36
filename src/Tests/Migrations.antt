-- ===== src/Tests/Migrations.antt =====
-- alembic/versions, on an engine that keeps a schema and no rows, and on tables of parcel types
use parcel_delivery_api.Base.{
  ◌≡◌, ◌≢◌, refl, String, true, Option, none, some, List, [], ◌∷◌, arith,
}
use parcel_delivery_api.Core.Action.{ok}
use parcel_delivery_api.Db.Schema.{Schema}
use parcel_delivery_api.Db.Ddl.{Ddl, Effect, changes, refused, apply}
use parcel_delivery_api.Db.Memory.{memory}
use parcel_delivery_api.Models.Metadata.{metadata}
use parcel_delivery_api.Models.ParcelType.{ParcelType}
use parcel_delivery_api.Migrations.{
  Migrated, Reached, start, upgraded, downgraded, upgrade, downgrade, run_statements,
}
use parcel_delivery_api.Migrations.Layout.{SameLayout}
use parcel_delivery_api.Migrations.Commands.{
  schema_of_revision, head_is_metadata, head_downgrade_fails,
}
use parcel_delivery_api.Migrations.Seed
use parcel_delivery_api.Migrations.Seed.{defaults, values}
use parcel_delivery_api.Migrations.Upserted.{Drawn}
use parcel_delivery_api.Migrations.Seeded.{IsSeeded, upgrade-IsSeeded, downgrade-upgrade}

abbrev run_effect : Effect → Option Schema
run_effect (changes s) = some s
run_effect _ = none

changes_lem : (e : Effect) (c s : Schema) → e ≡ changes s → run_effect e ≡ some c → c ≡ s
changes_lem e c s h r = ground arith

refused_lem : (e : Effect) → e ≡ refused → run_effect e ≡ none
refused_lem e h = ground arith

abbrev toy_ddl : Ddl
toy_ddl = record {
  Catalog = Schema;
  schema = λ c. c;
  run_statement = λ st c. run_effect (apply st c);
  changes_lem = λ st c c' s h r. changes_lem (apply st c) c' s h r;
  refused_lem = λ st c h. refused_lem (apply st c) h;
}

abbrev fresh : Migrated toy_ddl
fresh = record { version = none; catalog = [] }

abbrev up : Migrated toy_ddl → Migrated toy_ddl
up d = (upgrade toy_ddl d).1

abbrev down : Migrated toy_ddl → Migrated toy_ddl
down d = (downgrade toy_ddl d).1

abbrev head : Migrated toy_ddl
head = up (up (up (up (up (up fresh)))))

up-Reached : Reached toy_ddl (up fresh)
unfolding upgrade run_statements apply
up-Reached = upgraded fresh (up fresh) (start [] refl) refl

down-Reached : Reached toy_ddl (down (up fresh))
unfolding upgrade downgrade run_statements apply
down-Reached = downgraded (up fresh) (down (up fresh)) up-Reached refl

head-Reached : Reached toy_ddl head
unfolding upgrade run_statements apply
head-Reached =
    upgraded _ head
      (upgraded _ _ (upgraded _ _ (upgraded _ _ (upgraded _ _ up-Reached refl) refl) refl) refl)
      refl

schema_of_revision_example : (down (up fresh)).catalog ≡ []
unfolding upgrade downgrade run_statements apply
schema_of_revision_example =
    schema_of_revision toy_ddl (down (up fresh)) fresh down-Reached (start [] refl) refl

head_is_metadata_example : SameLayout head.catalog metadata
unfolding upgrade run_statements apply
head_is_metadata_example = head_is_metadata toy_ddl head head-Reached refl

head_downgrade_fails_example : downgrade toy_ddl head ≢ (true, head)
unfolding upgrade run_statements apply
head_downgrade_fails_example = head_downgrade_fails toy_ddl head head head-Reached refl

abbrev misc : ParcelType
misc = record { id = "t1"; name = "misc" }

abbrev glass : ParcelType
glass = record { id = "t2"; name = "glass" }

abbrev before : List ParcelType
before = misc ∷ glass ∷ []

abbrev uuids : List String
uuids = "u1" ∷ "u2" ∷ "u3" ∷ []

uuids-Drawn : Drawn (values uuids defaults) before
uuids-Drawn = record { fresh = (refl, (refl, (refl, tt))); apart = (refl, (refl, (refl, tt))) }

upgrade-IsSeeded_example : IsSeeded before (Seed.upgrade memory uuids before)
upgrade-IsSeeded_example =
    upgrade-IsSeeded memory "u1" "u2" "u3" before (refl, (refl, tt)) (refl, (refl, tt)) uuids-Drawn

downgrade-upgrade_example :
    (t : List ParcelType) × (Seed.downgrade memory [] (Seed.upgrade memory uuids before) ≡ ok t)
    × (t ≡ glass ∷ [])
unfolding Seed.upgrade Seed.downgrade
downgrade-upgrade_example =
    downgrade-upgrade memory "u1" "u2" "u3" before (refl, (refl, tt)) (refl, (refl, tt)) uuids-Drawn
      [] refl
