-- ===== src/Db/Schema.antt =====
-- The schema of a database as DDL describes it: tables with their columns, keys, constraints and
-- indexes. A table is a value that the statements of alembic/versions change.
use parcel_delivery_api.Base.{
  ℕ, String, Bool, true, false, Option, List, [], ◌∷◌, ◌==◌, ◌&&◌, ◌||◌, not, map,
}
use parcel_delivery_api.Base.Rows.{first, none_of}

-- sa.String(n), sa.Float(), sa.Numeric(precision, scale), sa.DateTime()
pub data ColumnType : Type 0 where
  string : ℕ → ColumnType
  float date_time : ColumnType
  numeric : ℕ → ℕ → ColumnType

pub record Column : Type 0 where
  pub name : String
  pub type : ColumnType
  pub nullable : Bool
  pub server_default : Option String

-- FOREIGN KEY (columns) REFERENCES target (target_columns); a constraint without a name has `none`.
pub record ForeignKey : Type 0 where
  pub name : Option String
  pub columns : List String
  pub target : String
  pub target_columns : List String

pub record Check : Type 0 where
  pub name : String
  pub condition : String

pub record Index : Type 0 where
  pub name : String
  pub columns : List String
  pub unique : Bool

pub record Table : Type 0 where
  pub name : String
  pub columns : List Column
  pub primary_key : List String
  pub unique : List (List String)
  pub foreign_keys : List ForeignKey
  pub checks : List Check
  pub indexes : List Index

abbrev pub Schema : Type 0
Schema = List Table

abbrev pub find_table : String → Schema → Option Table
find_table n schema = first (λ t. t.name == n) schema

abbrev pub is_in : String → List String → Bool
is_in x xs = not (none_of (λ y. y == x) xs)

abbrev pub has_column : Table → String → Bool
has_column t c = is_in c (map (λ k. k.name) t.columns)

abbrev pub has_columns : Table → List String → Bool
has_columns t [] = true
has_columns t (c ∷ cs) = has_column t c && has_columns t cs

abbrev pub has_table : Schema → String → Bool
has_table schema n = is_in n (map (λ t. t.name) schema)

-- The columns begin with the others, in their order.
abbrev pub begins_with : List String → List String → Bool
begins_with cs [] = true
begins_with [] (k ∷ ks) = false
begins_with (c ∷ cs) (k ∷ ks) = (c == k) && begins_with cs ks

abbrev pub covers : Table → List String → Bool
covers t cs =
    begins_with t.primary_key cs
    || (not (none_of (λ u. begins_with u cs) t.unique)
        || not (none_of (λ i. begins_with i.columns cs) t.indexes))

abbrev pub column_names : List Column → List String
column_names = map (λ k. k.name)
