-- ===== src/Migrations/Layout.antt =====
-- What the migrations make of a database, beside what app/models declares.
use mathlib.Core.Option
use parcel_delivery_api.Base.{
  ◌≡◌, refl, sym, ap, ◌∙◌, String, Bool, false, Option, none, some, List, [], ◌∷◌, ◌++◌, ◌==◌, map,
  eq_iff, inl, inr, Bool-cases,
}
use mathlib.Core.Path.{subst}
use parcel_delivery_api.Base.Rows.{All, first, select}
use parcel_delivery_api.Base.Rows.Members.{All-map}
use parcel_delivery_api.Db.Schema.{ColumnType, Column, Check, Table, Schema, find_table}
use parcel_delivery_api.Db.Ddl.{apply}
use parcel_delivery_api.Models.Metadata.{metadata}
use parcel_delivery_api.Migrations.Stages.{current, schema_of, effects}

-- A column without the default that the database itself would write.
abbrev column_layout : Column → ColumnType × Bool
column_layout c = (c.type, c.nullable)

abbrev find_column : String → Table → Option (ColumnType × Bool)
find_column c t = Option.map column_layout (first (λ k. k.name == c) t.columns)

-- What a table's keys, constraints and indexes promise, without the names of the foreign keys; a
-- unique index promises what a unique constraint does.
pub record Keys : Type 0 where
  pub primary_key : List String
  pub unique : List (List String)
  pub foreign_keys : List (List String × String × List String)
  pub checks : List Check
  pub indexed : List (List String)

abbrev keys_of : Table → Keys
keys_of t = record {
  primary_key = t.primary_key;
  unique = t.unique ++ map (λ i. i.columns) (select (λ i. i.unique) t.indexes);
  foreign_keys = map (λ f. (f.columns, f.target, f.target_columns)) t.foreign_keys;
  checks = t.checks;
  indexed = map (λ i. i.columns) t.indexes;
}

abbrev bind_table : {A : Type 0} → (Table → Option A) → Option Table → Option A
bind_table f none = none
bind_table f (some t) = f t

-- Two schemas have the same tables, with the same columns and the same keys, in whatever order.
pub record SameLayout (a b : Schema) : Type 0 where
  pub columns :
      (t c : String)
      → bind_table (find_column c) (find_table t a) ≡ bind_table (find_column c) (find_table t b)
  pub keys :
      (t : String)
      → bind_table (λ u. some (keys_of u)) (find_table t a)
        ≡ bind_table (λ u. some (keys_of u)) (find_table t b)

-- A statement about a name holds of all names if it holds of those listed and of every other one.
by_name :
    (P : String → Type 0) (ns : List String)
    → All P ns
    → ((t : String) → All (λ n. (n == t) ≡ false) ns → P t)
    → (t : String) → P t
by_name P [] h other t = other t tt
by_name P (n ∷ ns) (p, h) other t = elim (Bool-cases (n == t)) [
  | inl e ↦ subst P ((eq_iff n t).0 e) p
  | inr e ↦
      by_name (λ u. (n == u) ≡ false → P u) ns
        (All-map P (λ u. (n == u) ≡ false → P u) ns (λ u p q. p) h) (λ u a q. other u (q, a)) t e
]

find_table-none :
    (t : String) (schema : Schema)
    → All (λ u. (u.name == t) ≡ false) schema
    → find_table t schema ≡ none
find_table-none t [] h = refl
find_table-none t (u ∷ schema) (e, h) = rw e (find_table-none t schema h)

abbrev names : List String
names = "parcel" ∷ "parcel_type" ∷ "refresh_token" ∷ "user" ∷ []

user_columns :
    (c : String)
    → bind_table (find_column c) (find_table "user" (schema_of current))
      ≡ bind_table (find_column c) (find_table "user" metadata)
unfolding schema_of effects apply
user_columns =
    by_name
      (λ c.
        bind_table (find_column c) (find_table "user" (schema_of current))
        ≡ bind_table (find_column c) (find_table "user" metadata))
      ("id" ∷ "email" ∷ "hashed_password" ∷ "role" ∷ "created_at" ∷ [])
      (refl, (refl, (refl, (refl, (refl, tt)))))
      (λ c (e1, (e2, (e3, (e4, (e5, _))))). rw (e1, e2, e3, e4, e5) refl)

by_table :
    {A : Type 0} (f : Table → Option A)
    → All
        (λ t.
          bind_table f (find_table t (schema_of current)) ≡ bind_table f (find_table t metadata))
        names
    → (t : String)
    → bind_table f (find_table t (schema_of current)) ≡ bind_table f (find_table t metadata)
unfolding schema_of effects apply
by_table f h =
    by_name
      (λ t. bind_table f (find_table t (schema_of current)) ≡ bind_table f (find_table t metadata))
      names h
      (λ t (e1, (e2, (e3, (e4, _)))). ap (bind_table f) (
        find_table-none t (schema_of current) (e2, (e1, (e4, (e3, tt))))
        ∙ sym (find_table-none t metadata (e1, (e2, (e3, (e4, tt)))))))

pub current-SameLayout : SameLayout (schema_of current) metadata
unfolding schema_of effects apply
current-SameLayout = record {
  columns = λ t c. by_table (find_column c) (refl, (refl, (refl, (user_columns c, tt)))) t;
  keys = by_table (λ t. some (keys_of t)) (refl, (refl, (refl, (refl, tt))));
}
