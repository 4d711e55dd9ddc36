-- ===== src/Schemas/Parcel/Pages.antt =====
-- The pages of GET /parcels for parameters that have passed their schema.
use Prim.Native.Nat.{min}
use parcel_delivery_api.Base.{◌-◌, ◌≤◌, ◌≡◌, String, true, length, length-map, map, arith}
use parcel_delivery_api.Base.Rows.{count}
use parcel_delivery_api.Core.Action.{ok}
use parcel_delivery_api.Core.Settings.{Settings}
use parcel_delivery_api.Db.Sql.{Sql}
use parcel_delivery_api.Models.Database.{Database}
use parcel_delivery_api.Services.Parcel.{ParcelFilterParams, conditions}
use parcel_delivery_api.Services.Parcel.Listing.{list_owned_page}
use parcel_delivery_api.Api.Parcel.{
  ParcelRead, read_item, PaginationParams, PaginatedResponse, list_parcels,
}
use parcel_delivery_api.Schemas.Parcel.{valid_pagination}

module _ (sql : Sql) (settings : Settings) where
  -- With parameters that have passed their schema GET /parcels succeeds, with at most a hundred parcels
  -- and never more than the total; and while the offset is below the total the page is not empty.
  pub page_bounds :
      (pagination : PaginationParams) (filters : ParcelFilterParams) (owner : String)
      (s : Database sql)
      → valid_pagination pagination ≡ true
      → (page : PaginatedResponse ParcelRead) × (list_parcels sql settings pagination filters owner
            s
          ≡ (ok page, s))
        × (length page.items ≤ 100)
        × (length page.items ≤ page.total)
        × (min 1 (page.total - page.offset) ≤ length page.items)
  unfolding list_parcels
  page_bounds pagination filters owner s h =
      let (rows, e, n, _) =
        list_owned_page sql settings owner filters pagination.limit pagination.offset s in
      let same = length-map (read_item sql settings s.parcel_types) rows in
      (
        record {
          items = map (read_item sql settings s.parcel_types) rows;
          total = count (conditions sql settings owner filters) (sql.rows s.parcels);
          limit = pagination.limit;
          offset = pagination.offset;
        },
        ground (arith, e),
        ground (arith, n, h, same),
        ground (arith, n, h, same),
        ground (arith, n, h, same),
      )
