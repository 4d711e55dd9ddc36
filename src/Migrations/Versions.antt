-- ===== src/Migrations/Versions.antt =====
-- alembic/versions: the six migrations, each with the statements of its `upgrade` and `downgrade`.
use parcel_delivery_api.Base.{String, true, false, Option, none, some, List, [], ◌∷◌}
use parcel_delivery_api.Db.Schema.{
  ColumnType, string, float, date_time, numeric, Column, ForeignKey,
}
use parcel_delivery_api.Db.Ddl.{
  Statement, create_table, drop_table, add_column, drop_column, alter_column, create_index,
  drop_index, create_foreign_key, create_check_constraint, drop_constraint, execute, check,
  foreignkey,
}

pub record Migration : Type 0 where
  pub revision : String
  pub down_revision : Option String
  pub upgrade : List Statement
  pub downgrade : List Statement

-- sa.Column(name, type, nullable=False), and with nullable=True
abbrev pub required : String → ColumnType → Column
required n type = record { name = n; type = type; nullable = false; server_default = none }

abbrev pub optional : String → ColumnType → Column
optional n type = record { name = n; type = type; nullable = true; server_default = none }

-- sa.ForeignKeyConstraint([column], [target.target_column])
abbrev pub references : String → String → String → ForeignKey
references c target target_column = record {
  name = none;
  columns = c ∷ [];
  target = target;
  target_columns = target_column ∷ [];
}

abbrev init_upgrade : List Statement
init_upgrade =
    create_table (record {
      name = "parcel_type";
      columns = required "id" (string 36) ∷ required "name" (string 50) ∷ [];
      primary_key = "id" ∷ [];
      unique = ("id" ∷ []) ∷ ("name" ∷ []) ∷ [];
      foreign_keys = [];
      checks = [];
      indexes = [];
    })
    ∷ create_table (record {
      name = "parcel";
      columns =
          required "id" (string 36)
          ∷ required "name" (string 255)
          ∷ required "weight_kg" float
          ∷ required "declared_value_usd" float
          ∷ required "session_id" (string 255)
          ∷ optional "delivery_cost_rub" float
          ∷ required "parcel_type_id" (string 36)
          ∷ [];
      primary_key = "id" ∷ [];
      unique = [];
      foreign_keys = references "parcel_type_id" "parcel_type" "id" ∷ [];
      checks = [];
      indexes = [];
    })
    ∷ []

abbrev init_downgrade : List Statement
init_downgrade = drop_table "parcel" ∷ drop_table "parcel_type" ∷ []

-- The statements on the rows of parcel_type are those of Migrations/Seed.
abbrev seed_upgrade : List Statement
seed_upgrade = execute "parcel_type" ∷ []

abbrev seed_downgrade : List Statement
seed_downgrade = execute "parcel_type" ∷ []

abbrev float_to_decimal_upgrade : List Statement
float_to_decimal_upgrade =
    alter_column "parcel" "weight_kg" (numeric 10 3) false
    ∷ alter_column "parcel" "declared_value_usd" (numeric 12 2) false
    ∷ alter_column "parcel" "delivery_cost_rub" (numeric 12 2) true
    ∷ []

abbrev float_to_decimal_downgrade : List Statement
float_to_decimal_downgrade =
    alter_column "parcel" "weight_kg" float false
    ∷ alter_column "parcel" "declared_value_usd" float false
    ∷ alter_column "parcel" "delivery_cost_rub" float true
    ∷ []

abbrev check_constraints_upgrade : List Statement
check_constraints_upgrade =
    create_check_constraint "ck_parcel_weight_positive" "parcel" "weight_kg > 0"
    ∷ create_check_constraint "ck_parcel_value_non_negative" "parcel" "declared_value_usd >= 0"
    ∷ create_check_constraint "ck_parcel_cost_non_negative" "parcel"
        "delivery_cost_rub >= 0 OR delivery_cost_rub IS NULL"
    ∷ []

abbrev check_constraints_downgrade : List Statement
check_constraints_downgrade =
    drop_constraint "ck_parcel_weight_positive" "parcel" check
    ∷ drop_constraint "ck_parcel_value_non_negative" "parcel" check
    ∷ drop_constraint "ck_parcel_cost_non_negative" "parcel" check
    ∷ []

abbrev user_table_upgrade : List Statement
user_table_upgrade =
    create_table (record {
      name = "user";
      columns =
          required "id" (string 36)
          ∷ required "email" (string 255)
          ∷ required "hashed_password" (string 255)
          ∷ required "created_at" date_time
          ∷ [];
      primary_key = "id" ∷ [];
      unique = ("email" ∷ []) ∷ [];
      foreign_keys = [];
      checks = [];
      indexes = [];
    })
    ∷ create_index "ix_user_email" "user" ("email" ∷ [])
    ∷ add_column "parcel" (optional "user_id" (string 36))
    ∷ create_foreign_key "fk_parcel_user_id" "parcel" "user" ("user_id" ∷ []) ("id" ∷ [])
    ∷ []

abbrev user_table_downgrade : List Statement
user_table_downgrade =
    drop_constraint "fk_parcel_user_id" "parcel" foreignkey
    ∷ drop_column "parcel" "user_id"
    ∷ drop_index "ix_user_email" "user"
    ∷ drop_table "user"
    ∷ []

abbrev refresh_tokens_upgrade : List Statement
refresh_tokens_upgrade =
    add_column "user"
      (record { name = "role"; type = string 50; nullable = false; server_default = some "user" })
    ∷ create_table (record {
      name = "refresh_token";
      columns =
          required "jti" (string 36)
          ∷ required "user_id" (string 36)
          ∷ required "token_hash" (string 64)
          ∷ required "family_id" (string 36)
          ∷ required "expires_at" date_time
          ∷ optional "revoked_at" date_time
          ∷ optional "replaced_by_jti" (string 36)
          ∷ required "created_at" date_time
          ∷ [];
      primary_key = "jti" ∷ [];
      unique = ("token_hash" ∷ []) ∷ [];
      foreign_keys = references "user_id" "user" "id" ∷ [];
      checks = [];
      indexes = [];
    })
    ∷ create_index "ix_refresh_token_user_id" "refresh_token" ("user_id" ∷ [])
    ∷ create_index "ix_refresh_token_family_id" "refresh_token" ("family_id" ∷ [])
    ∷ create_index "ix_refresh_token_expires_at" "refresh_token" ("expires_at" ∷ [])
    ∷ []

abbrev pub refresh_tokens_downgrade : List Statement
refresh_tokens_downgrade =
    drop_index "ix_refresh_token_expires_at" "refresh_token"
    ∷ drop_index "ix_refresh_token_family_id" "refresh_token"
    ∷ drop_index "ix_refresh_token_user_id" "refresh_token"
    ∷ drop_table "refresh_token"
    ∷ drop_column "user" "role"
    ∷ []

-- `Revision ID` and `Revises` of each file
abbrev pub versions : List Migration
versions =
    record {
      revision = "45dd304438ec";
      down_revision = none;
      upgrade = init_upgrade;
      downgrade = init_downgrade;
    }
    ∷ record {
      revision = "0c8ee6e20a41";
      down_revision = some "45dd304438ec";
      upgrade = seed_upgrade;
      downgrade = seed_downgrade;
    }
    ∷ record {
      revision = "a1b2c3d4e5f6";
      down_revision = some "0c8ee6e20a41";
      upgrade = float_to_decimal_upgrade;
      downgrade = float_to_decimal_downgrade;
    }
    ∷ record {
      revision = "b2c3d4e5f6a7";
      down_revision = some "a1b2c3d4e5f6";
      upgrade = check_constraints_upgrade;
      downgrade = check_constraints_downgrade;
    }
    ∷ record {
      revision = "c3d4e5f6a7b8";
      down_revision = some "b2c3d4e5f6a7";
      upgrade = user_table_upgrade;
      downgrade = user_table_downgrade;
    }
    ∷ record {
      revision = "d4e5f6a7b8c9";
      down_revision = some "c3d4e5f6a7b8";
      upgrade = refresh_tokens_upgrade;
      downgrade = refresh_tokens_downgrade;
    }
    ∷ []
