-- ===== src/Models/Metadata.antt =====
-- `Base.metadata` of app/db/base.py: the tables that app/models declares, as SQLAlchemy makes them of
-- the arguments of `mapped_column`. A column that is unique and indexed has one unique index, one
-- that is unique alone a constraint.
use parcel_delivery_api.Base.{
  String, Bool, true, false, Option, none, some, List, [], ◌∷◌, ◌&&◌, not, map,
}
use parcel_delivery_api.Base.Rows.{select}
use parcel_delivery_api.Db.Schema.{
  ColumnType, string, date_time, numeric, Column, ForeignKey, Check, Index, Table, Schema,
}
use Prim.Native.String.{◌++◌ as append}

-- The arguments of `mapped_column`; ForeignKey("table.column") is the pair of the two.
pub record MappedColumn : Type 0 where
  pub name : String
  pub type : ColumnType
  pub primary_key : Bool
  pub unique : Bool
  pub index : Bool
  pub nullable : Bool
  pub foreign_key : Option (String × String)

abbrev mapped_column : String → ColumnType → MappedColumn
mapped_column n type = record {
  name = n;
  type = type;
  primary_key = false;
  unique = false;
  index = false;
  nullable = false;
  foreign_key = none;
}

abbrev column_of : MappedColumn → Column
column_of m = record { name = m.name; type = m.type; nullable = m.nullable; server_default = none }

abbrev foreign_keys_of : List MappedColumn → List ForeignKey
foreign_keys_of [] = []
foreign_keys_of (m ∷ ms) = elim m.foreign_key [
  | none ↦ foreign_keys_of ms
  | some (t, c) ↦
      record { name = none; columns = m.name ∷ []; target = t; target_columns = c ∷ [] }
      ∷ foreign_keys_of ms
]

abbrev index_of : String → MappedColumn → Index
index_of t m = record {
  name = append "ix_" (append t (append "_" m.name));
  columns = m.name ∷ [];
  unique = m.unique;
}

abbrev table_of : String → List Check → List MappedColumn → Table
table_of n checks ms = record {
  name = n;
  columns = map column_of ms;
  primary_key = map (λ m. m.name) (select (λ m. m.primary_key) ms);
  unique = map (λ m. m.name ∷ []) (select (λ m. m.unique && not m.index) ms);
  foreign_keys = foreign_keys_of ms;
  checks = checks;
  indexes = map (index_of n) (select (λ m. m.index) ms);
}

abbrev parcel_type_table : Table
parcel_type_table = table_of "parcel_type" [] (
    record (mapped_column "id" (string 36)) { primary_key = true; unique = true }
    ∷ record (mapped_column "name" (string 50)) { unique = true }
    ∷ [])

abbrev user_table : Table
user_table = table_of "user" [] (
    record (mapped_column "id" (string 36)) { primary_key = true }
    ∷ record (mapped_column "email" (string 255)) { unique = true; index = true }
    ∷ mapped_column "hashed_password" (string 255)
    ∷ mapped_column "role" (string 50)
    ∷ mapped_column "created_at" date_time
    ∷ [])

abbrev refresh_token_table : Table
refresh_token_table = table_of "refresh_token" [] (
    record (mapped_column "jti" (string 36)) { primary_key = true }
    ∷ record (mapped_column "user_id" (string 36)) {
      index = true;
      foreign_key = some ("user", "id");
    }
    ∷ record (mapped_column "token_hash" (string 64)) { unique = true }
    ∷ record (mapped_column "family_id" (string 36)) { index = true }
    ∷ record (mapped_column "expires_at" date_time) { index = true }
    ∷ record (mapped_column "revoked_at" date_time) { nullable = true }
    ∷ record (mapped_column "replaced_by_jti" (string 36)) { nullable = true }
    ∷ mapped_column "created_at" date_time
    ∷ [])

abbrev parcel_checks : List Check
parcel_checks =
    record { name = "ck_parcel_weight_positive"; condition = "weight_kg > 0" }
    ∷ record { name = "ck_parcel_value_non_negative"; condition = "declared_value_usd >= 0" }
    ∷ record {
      name = "ck_parcel_cost_non_negative";
      condition = "delivery_cost_rub >= 0 OR delivery_cost_rub IS NULL";
    }
    ∷ []

abbrev parcel_table : Table
parcel_table = table_of "parcel" parcel_checks (
    record (mapped_column "id" (string 36)) { primary_key = true }
    ∷ mapped_column "name" (string 255)
    ∷ mapped_column "weight_kg" (numeric 10 3)
    ∷ mapped_column "declared_value_usd" (numeric 12 2)
    ∷ mapped_column "session_id" (string 255)
    ∷ record (mapped_column "delivery_cost_rub" (numeric 12 2)) { nullable = true }
    ∷ record (mapped_column "parcel_type_id" (string 36)) {
      foreign_key = some ("parcel_type", "id");
    }
    ∷ record (mapped_column "user_id" (string 36)) {
      nullable = true;
      foreign_key = some ("user", "id");
    }
    ∷ [])

abbrev pub metadata : Schema
metadata = parcel_table ∷ parcel_type_table ∷ refresh_token_table ∷ user_table ∷ []
