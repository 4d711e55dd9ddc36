-- ===== src/Db/Ddl.antt =====
-- The interface of the database's DDL, with what MySQL documents of each statement that
-- alembic/versions runs through `op`. Each statement is atomic, and none is rolled back by a later
-- one. A statement may also be refused for the rows that are there; the laws leave that open.
use Prim.Native.String.{find, len}
use parcel_delivery_api.Base.{
  ◌≡◌, String, Bool, true, false, Option, none, some, List, [], ◌∷◌, ◌++◌, ◌==◌, ◌&&◌, ◌||◌, leb,
  not, if◌then◌else◌,
}
use parcel_delivery_api.Base.Rows.{select, rewrite, none_of}
use parcel_delivery_api.Db.Schema.{
  ColumnType, Column, ForeignKey, Check, Table, Schema, find_table, is_in, has_column, has_columns,
  has_table, covers, begins_with,
}

-- op.drop_constraint(..., type_=...)
pub data ConstraintType : Type 0 where
  check foreignkey : ConstraintType

-- The operations of alembic's `op` that the versions call, in the order of their arguments.
-- `execute` is a statement on the rows of the table that it names.
pub data Statement : Type 0 where
  create_table : Table → Statement
  drop_table : String → Statement
  add_column : String → Column → Statement
  drop_column : String → String → Statement
  alter_column : (table column : String) (type_ : ColumnType) (existing_nullable : Bool) → Statement
  create_index : (name table : String) (columns : List String) → Statement
  drop_index : (name table : String) → Statement
  create_foreign_key :
      (name source referent : String) (local_cols remote_cols : List String) → Statement
  create_check_constraint : (name table condition : String) → Statement
  drop_constraint : (name table : String) → ConstraintType → Statement
  execute : String → Statement

-- What a statement does to a schema: it leads to another, or it is refused whatever the rows are.
-- `unspecified` is a case that no law describes.
pub data Effect : Type 0 where
  changes : Schema → Effect
  refused unspecified : Effect

abbrev alter : String → (Table → Option Table) → Schema → Effect
alter n f schema = elim (find_table n schema) [
  | none ↦ refused
  | some t ↦ elim (f t) [
    | none ↦ refused
    | some t' ↦ changes (rewrite (λ u. u.name == n) (λ _. t') schema)
  ]
]

abbrev if_specified : Bool → Effect → Effect
if_specified b e = if b then e else unspecified

abbrev refers_to : String → Table → Bool
refers_to n t = not (none_of (λ f. f.target == n) t.foreign_keys)

abbrev targets_exist : Schema → List ForeignKey → Bool
targets_exist schema [] = true
targets_exist schema (f ∷ fs) = has_table schema f.target && targets_exist schema fs

abbrev altered : ColumnType → Bool → Column → Column
altered type nullable c = record {
  name = c.name;
  type = type;
  nullable = nullable;
  server_default = none;
}

-- A foreign key needs an index that begins with its columns. One that MySQL makes of itself is
-- dropped when another such index is created; the last one cannot be dropped (error 1553).
abbrev still_covered : Table → List ForeignKey → Bool
still_covered t [] = true
still_covered t (f ∷ fs) = covers t f.columns && still_covered t fs

abbrev needed_before : Table → String → List ForeignKey
needed_before t i =
    select (λ f. not (none_of (λ j. (j.name == i) && begins_with j.columns f.columns) t.indexes))
      t.foreign_keys

abbrev without_index : String → Table → Option Table
without_index i t =
    let t' : Table = record t { indexes = select (λ j. not (j.name == i)) t.indexes } in
    if none_of (λ j. j.name == i) t.indexes
    then none
    else (if still_covered t' (needed_before t i) then some t' else none)

abbrev named : String → ForeignKey → Bool
named n f = elim f.name [ none ↦ false | some m ↦ m == n ]

abbrev without_constraint : String → ConstraintType → Table → Option Table
without_constraint n check t =
    if none_of (λ c. c.name == n) t.checks
    then none
    else some (record t { checks = select (λ c. not (c.name == n)) t.checks })
without_constraint n foreignkey t =
    if none_of (named n) t.foreign_keys
    then none
    else some (record t { foreign_keys = select (λ f. not (named n f)) t.foreign_keys })

abbrev mentions : String → Check → Bool
mentions c k = leb (find k.condition c) (len k.condition)

-- No key, index or constraint of any table mentions the column.
abbrev free_column : String → String → Schema → Bool
free_column n c [] = true
free_column n c (t ∷ schema) =
    none_of (λ f. (f.target == n) && is_in c f.target_columns) t.foreign_keys
    && ((not (t.name == n)
          || (not (is_in c t.primary_key)
              && (none_of (is_in c) t.unique
                  && (none_of (λ f. is_in c f.columns) t.foreign_keys
                      && (none_of (λ i. is_in c i.columns) t.indexes
                          && none_of (mentions c) t.checks)))))
        && free_column n c schema)

unfoldable pub apply : Statement → Schema → Effect
apply (create_table t) schema =
    if has_table schema t.name || not (targets_exist schema t.foreign_keys)
    then refused
    else changes (schema ++ (t ∷ []))
apply (drop_table n) schema =
    if not (has_table schema n) || not (none_of (λ t. refers_to n t && not (t.name == n)) schema)
    then refused
    else changes (select (λ t. not (t.name == n)) schema)
apply (add_column n c) schema =
    alter n
      (λ t.
        if has_column t c.name then none else some (record t { columns = t.columns ++ (c ∷ []) }))
      schema
apply (drop_column n c) schema = if_specified (free_column n c schema) (
    alter n
      (λ t.
        if has_column t c
        then some (record t { columns = select (λ k. not (k.name == c)) t.columns })
        else none)
      schema)
apply (alter_column n c type_ existing_nullable) schema =
    alter n
      (λ t.
        if has_column t c
        then some (record t {
          columns = rewrite (λ k. k.name == c) (altered type_ existing_nullable) t.columns;
        })
        else none)
      schema
apply (create_index i n columns) schema =
    alter n
      (λ t.
        if not (none_of (λ j. j.name == i) t.indexes) || not (has_columns t columns)
        then none
        else some (record t {
          indexes = t.indexes ++ (record { name = i; columns = columns; unique = false } ∷ []);
        }))
      schema
apply (drop_index i n) schema = alter n (without_index i) schema
apply (create_foreign_key k n referent local_cols remote_cols) schema =
    if has_table schema referent
    then alter n
        (λ t.
          if has_columns t local_cols && none_of (named k) t.foreign_keys
          then some (record t {
            foreign_keys =
                t.foreign_keys
                ++ (record {
                  name = some k;
                  columns = local_cols;
                  target = referent;
                  target_columns = remote_cols;
                }
                    ∷ []);
          })
          else none)
        schema
    else refused
apply (create_check_constraint k n condition) schema =
    if none_of (λ t. not (none_of (λ c. c.name == k) t.checks)) schema
    then alter n
        (λ t.
          some
            (record t { checks = t.checks ++ (record { name = k; condition = condition } ∷ []) }))
        schema
    else refused
apply (drop_constraint k n type_) schema = alter n (without_constraint k type_) schema
apply (execute n) schema = if has_table schema n then changes schema else refused

pub record Ddl : Type 1 where
  pub Catalog : Type 0
  pub schema : Catalog → Schema
  -- `none` is a statement that the database refuses, and which leaves it as it was
  pub run_statement : Statement → Catalog → Option Catalog
  pub changes_lem :
      (st : Statement) (c c' : Catalog) (s : Schema)
      → apply st (schema c) ≡ changes s
      → run_statement st c ≡ some c'
      → schema c' ≡ s
  pub refused_lem :
      (st : Statement) (c : Catalog) → apply st (schema c) ≡ refused → run_statement st c ≡ none
