-- ===== src/Migrations/Seed.antt =====
-- alembic/versions/0c8ee6e20a41_seed_parcel_types.py: what its two statements do to the rows.
use parcel_delivery_api.Base.{
  String, Bool, ◌&&◌, ◌||◌, not, none, some, List, [], ◌∷◌, ◌==◌, if◌then◌else◌,
}
use parcel_delivery_api.Base.Rows.{none_of}
use parcel_delivery_api.Core.Exceptions.{integrity_error}
use parcel_delivery_api.Core.Action.{Result, ok, raised}
use parcel_delivery_api.Db.Schema.{is_in}
use parcel_delivery_api.Db.Sql.{Sql}
use parcel_delivery_api.Models.ParcelType.{ParcelType}
use parcel_delivery_api.Models.Parcel.{Parcel}

abbrev pub defaults : List String
defaults = "clothes" ∷ "electronics" ∷ "misc" ∷ []

abbrev pub is_default : ParcelType → Bool
is_default t = is_in t.name defaults

-- [{"id": str(uuid4()), "name": n} for n in defaults], for the ids that uuid4 gives
abbrev pub values : List String → List String → List ParcelType
values ids [] = []
values [] (n ∷ names) = []
values (i ∷ ids) (n ∷ names) = record { id = i; name = n } ∷ values ids names

abbrev pub same_key : ParcelType → ParcelType → Bool
same_key v t = (t.id == v.id) || (t.name == v.name)

module _ (sql : Sql) where
  open sql use {Table, rows, add, scalar, update, delete, add_lem, update_lem, delete_lem}

  -- INSERT of one row ... ON DUPLICATE KEY UPDATE name = inserted.name: a row with its id or its name
  -- gets its name.
  abbrev pub insert_or_rename : ParcelType → Table ParcelType → Table ParcelType
  insert_or_rename v types = elim (scalar (same_key v) types) [
    | none ↦ add v types
    | some r ↦ update (λ t. t.id == r.id) (λ t. record t { name = v.name }) types
  ]

  abbrev pub insert_all : List ParcelType → Table ParcelType → Table ParcelType
  insert_all [] types = types
  insert_all (v ∷ vs) types = insert_all vs (insert_or_rename v types)

  unfoldable pub upgrade : List String → Table ParcelType → Table ParcelType
  upgrade ids types = insert_all (values ids defaults) types

  -- A parcel has one of the default types.
  abbrev pub in_use : Table Parcel → Table ParcelType → Bool
  in_use parcels types = not (
      none_of (λ p. not (none_of (λ t. is_default t && (t.id == p.parcel_type_id)) (rows types)))
        (rows parcels))

  -- DELETE FROM parcel_type WHERE name IN (...), which the foreign key of parcel refuses while a parcel
  -- has one of these types
  unfoldable pub downgrade : Table Parcel → Table ParcelType → Result (Table ParcelType)
  downgrade parcels types =
      if in_use parcels types then raised integrity_error else ok (delete is_default types)
