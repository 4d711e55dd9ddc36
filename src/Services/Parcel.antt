-- ===== src/Services/Parcel.antt =====
-- app/services/parcel.py and the helpers of app/services/base.py that it uses. The id of a new parcel
-- (uuid4) is an argument; log lines and the counter of created parcels are left out.
pub mod KnownType
pub mod Ownership
pub mod Listing
pub mod Spec
use parcel_delivery_api.Base.{
  ℕ, String, Bool, true, false, Option, none, some, List, ◌==◌, ◌&&◌, not, is_some, is_text, length,
  take, drop, if◌then◌else◌,
}
use parcel_delivery_api.Core.Exceptions.{
  business_error, not_found_error, unauthorized_error, integrity_error, data_error,
}
use parcel_delivery_api.Core.Action.{
  Action, Result, ok, raised, pure, raise, lift, gets, modify, commit, ◌>>=◌, ◌>>◌,
}
use parcel_delivery_api.Core.Settings.{Settings}
use parcel_delivery_api.Core.Decimal.{Decimal, le_zero}
use parcel_delivery_api.Db.Sql.{Sql}
use parcel_delivery_api.Db.Insert.{insert}
use parcel_delivery_api.Models.ParcelType.{ParcelType}
use parcel_delivery_api.Models.Parcel.{Parcel, accepts_parcel, columns, cost_allowed, cost_column}
use parcel_delivery_api.Models.Database.{Database}

-- The fields of app/schemas/parcel.py's ParcelCreate and ParcelFilterParams.
pub record ParcelCreate : Type 0 where
  pub name : String
  pub weight_kg : Decimal
  pub declared_value_usd : Decimal
  pub parcel_type_id : String

pub record ParcelFilterParams : Type 0 where
  pub type_id : Option String
  pub has_cost : Option Bool

abbrev pub has_id : String → Parcel → Bool
has_id i p = p.id == i

-- `settings.AUTH_REQUIRED` selects the column that holds the owner. The comparison is exact, as
-- Python's in `get_owned` is; `list_owned` makes it in SQL, where a collation may take more texts for
-- equal, which is not modelled.
unfoldable pub owned_by : Settings → String → Parcel → Bool
owned_by settings owner p =
    if settings.auth_required then is_text p.user_id owner else p.session_id == owner

-- `if filters.type_id:` and the two tests of `filters.has_cost`
abbrev pub type_matches : Option String → Parcel → Bool
type_matches none p = true
type_matches (some t) p = if t == "" then true else p.parcel_type_id == t

abbrev pub cost_matches : Option Bool → Parcel → Bool
cost_matches none p = true
cost_matches (some true) p = is_some p.delivery_cost_rub
cost_matches (some false) p = not (is_some p.delivery_cost_rub)

unfoldable pub matches : ParcelFilterParams → Parcel → Bool
matches filters p = type_matches filters.type_id p && cost_matches filters.has_cost p

-- `if not type_exists`, on the id that the query selects
abbrev pub unknown_type : Option ParcelType → Bool
unknown_type none = true
unknown_type (some t) = t.id == ""

module _ (sql : Sql) (settings : Settings) where
  open sql use {rows, scalar, scalars, ordered, update, add}

  abbrev pub Parcels : Type 0 → Type 0
  Parcels A = Action (Database sql) A

  abbrev pub new_parcel : ParcelCreate → String → String → Parcel
  new_parcel dto owner id = record {
    id = id;
    name = dto.name;
    weight_kg = dto.weight_kg;
    declared_value_usd = dto.declared_value_usd;
    session_id = if settings.auth_required then "" else owner;
    delivery_cost_rub = none;
    parcel_type_id = dto.parcel_type_id;
    user_id = if settings.auth_required then some owner else none;
  }

  abbrev with_parcels : Database sql → Option (sql.Table Parcel) → Option (Database sql)
  with_parcels s none = none
  with_parcels s (some t) = some (record s { parcels = t })

  abbrev pub add_parcel : Parcel → Database sql → Option (Database sql)
  add_parcel p s =
      with_parcels s (insert sql (accepts_parcel (rows s.users) (rows s.parcel_types)) p s.parcels)

  abbrev pub stored_columns : Parcel → Result Parcel
  stored_columns p = elim (columns sql p) [ none ↦ raised data_error | some q ↦ ok q ]

  -- `CRUDBase._commit` of a new row: add, commit, and refresh, which reads the row as it is stored.
  unfoldable pub commit_new : Parcel → Parcels Parcel
  commit_new p = do row ← lift (stored_columns p); commit (add_parcel row) integrity_error; pure row

  unfoldable pub create_from_dto : ParcelCreate → String → String → Parcels Parcel
  unfolding commit_new
  create_from_dto dto owner id = do
    type_exists ← gets (λ s. scalar (λ t. t.id == dto.parcel_type_id) s.parcel_types)
    if unknown_type type_exists
        then raise (business_error "Unknown parcel type")
        else if le_zero dto.weight_kg
        then raise (business_error "Weight must be positive")
        else commit_new (new_parcel dto owner id)

  abbrev pub check_owner : String → Option Parcel → Parcels Parcel
  check_owner owner none = raise (not_found_error "Parcel not found")
  check_owner owner (some p) =
      if owned_by settings owner p then pure p else raise (unauthorized_error "Parcel not found")

  unfoldable pub get_owned : String → String → Parcels Parcel
  get_owned parcel_id owner = do
    parcel ← gets (λ s. scalar (has_id parcel_id) s.parcels)
    check_owner owner parcel

  abbrev pub conditions : String → ParcelFilterParams → Parcel → Bool
  conditions owner filters p = owned_by settings owner p && matches filters p

  unfoldable pub list_owned : String → ParcelFilterParams → ℕ → ℕ → Parcels (ℕ × List Parcel)
  list_owned owner filters limit offset s =
      let total = length (scalars (conditions owner filters) s.parcels) in
      let page =
        take limit (drop offset (ordered (λ p. p.id) (conditions owner filters) s.parcels)) in
      (ok (total, page), s)

  abbrev pub set_cost : Decimal → Parcel → Parcel
  set_cost c p = record p { delivery_cost_rub = some c }

  -- What the cost column stores, if it and its CHECK allow the value.
  abbrev pub stored_cost : Decimal → Result Decimal
  stored_cost cost = elim (cost_column sql cost) [
    | none ↦ raised data_error
    | some c ↦ if cost_allowed (some c) then ok c else raised integrity_error
  ]

  -- The UPDATE that a changed `delivery_cost_rub` is flushed as.
  abbrev pub update_cost : Parcel → Decimal → sql.Table Parcel → Result (sql.Table Parcel)
  update_cost p cost t = elim (stored_cost cost) [
    | ok c ↦ ok (update (has_id p.id) (set_cost c) t)
    | raised e ↦ raised e
  ]

  abbrev store_parcels : Database sql → Result (sql.Table Parcel) → Result (Unit {0}) × Database sql
  store_parcels s (ok t) = (ok tt, record s { parcels = t })
  store_parcels s (raised e) = (raised e, s)

  -- For a parcel that the session has loaded; a new one, which `add_all` would insert, is not modelled.
  unfoldable pub set_delivery_cost : Parcel → Decimal → Parcels (Unit {0})
  set_delivery_cost p cost s = store_parcels s (update_cost p cost s.parcels)
