-- ===== src/Api/Parcel.antt =====
-- app/api/parcel.py and app/api/parcel_type.py, behind the cache (Cache.redis_cache) that three of the
-- handlers have. `owner_id` is what the dependency of the route returned.
pub mod Replies
use parcel_delivery_api.Base.{
  ℕ, ◌+◌, ◌-◌, String, Bool, true, false, Option, none, some, List, take, drop, map, ◌==◌,
}
use parcel_delivery_api.Core.Exceptions.{
  Failure, unauthorized_error, not_found_error, http_exception,
}
use parcel_delivery_api.Core.Action.{Action, Result, ok, raised, pure, gets, ◌>>=◌, ◌>>◌}
use parcel_delivery_api.Core.Settings.{Settings}
use parcel_delivery_api.Core.Decimal.{Decimal}
use parcel_delivery_api.Db.Sql.{Sql}
use parcel_delivery_api.Models.Parcel.{Parcel}
use parcel_delivery_api.Models.ParcelType.{ParcelType}
use parcel_delivery_api.Models.Database.{Database}
use parcel_delivery_api.Services.Parcel.{
  ParcelCreate, ParcelFilterParams, create_from_dto, get_owned, list_owned,
}
use parcel_delivery_api.Services.ParcelType.{list_all, total}

-- The fields of app/schemas/common.py's PaginatedResponse and PaginationParams.
pub record PaginatedResponse (A : Type 0) : Type 0 where
  pub items : List A
  pub total : ℕ
  pub limit : ℕ
  pub offset : ℕ

pub record PaginationParams : Type 0 where
  pub limit : ℕ
  pub offset : ℕ

pub record ParcelCreateResponse : Type 0 where
  pub id : String
  pub owner_id : String

-- ParcelRead, which leaves out the owner. `none` for the type stands for a missing row, which the foreign
-- key excludes.
pub record ParcelRead : Type 0 where
  pub id : String
  pub name : String
  pub weight_kg : Decimal
  pub declared_value_usd : Decimal
  pub delivery_cost_rub : Option Decimal
  pub parcel_type : Option ParcelType

module _ (sql : Sql) (settings : Settings) where
  abbrev pub read_item : sql.Table ParcelType → Parcel → ParcelRead
  read_item types p = record {
    id = p.id;
    name = p.name;
    weight_kg = p.weight_kg;
    declared_value_usd = p.declared_value_usd;
    delivery_cost_rub = p.delivery_cost_rub;
    parcel_type = sql.scalar (λ t. t.id == p.parcel_type_id) types;
  }

  abbrev pub Handler : Type 0 → Type 0
  Handler A = Action (Database sql) A

  unfoldable pub register_parcel : ParcelCreate → String → String → Handler ParcelCreateResponse
  register_parcel body owner_id id = do
    parcel ← create_from_dto sql settings body owner_id id
    pure (record { id = parcel.id; owner_id = owner_id })

  unfoldable pub list_parcels :
      PaginationParams → ParcelFilterParams → String → Handler (PaginatedResponse ParcelRead)
  list_parcels pagination filters owner_id = do
    (total, rows) ← list_owned sql settings owner_id filters pagination.limit pagination.offset
    types ← gets (λ s. s.parcel_types)
    pure (record {
      items = map (read_item types) rows;
      total = total;
      limit = pagination.limit;
      offset = pagination.offset;
    })

  -- The two `except` clauses of `get_parcel`
  abbrev pub http_error : Failure → Failure
  http_error (unauthorized_error m) = http_exception 403 "Forbidden"
  http_error (not_found_error m) = http_exception 404 "Not found"
  http_error e = e

  abbrev pub rename_failure : Result Parcel × Database sql → Result Parcel × Database sql
  rename_failure (ok p, s) = (ok p, s)
  rename_failure (raised e, s) = (raised (http_error e), s)

  unfoldable pub get_parcel : String → String → Handler Parcel
  get_parcel parcel_id owner_id s = rename_failure (get_owned sql settings parcel_id owner_id s)

module _ (sql : Sql) where
  unfoldable pub list_parcel_types :
      PaginationParams → Action (Database sql) (PaginatedResponse ParcelType)
  unfolding list_all total
  list_parcel_types pagination = do
    n ← total sql
    rows ← list_all sql
    pure (record {
      items = take pagination.limit (drop pagination.offset rows);
      total = n;
      limit = pagination.limit;
      offset = pagination.offset;
    })
