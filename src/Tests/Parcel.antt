-- ===== src/Tests/Parcel.antt =====
-- app/services/parcel.py
use parcel_delivery_api.Base.{
  ℕ, ◌≡◌, ◌≢◌, refl, String, true, false, none, some, List, [], ◌∷◌, ◌++◌, length,
}
use parcel_delivery_api.Base.Rows.{Has}
use parcel_delivery_api.Core.Exceptions.{business_error, unauthorized_error}
use parcel_delivery_api.Base.Rows.Sorting.{Ascending}
use parcel_delivery_api.Core.Text.Order.{text_le}
use parcel_delivery_api.Core.Action.{ok, raised}
use parcel_delivery_api.Core.Settings.{Settings, default_settings}
use parcel_delivery_api.Core.Decimal.{decimal, le_zero, negative_value}
use parcel_delivery_api.Db.Memory.{memory}
use parcel_delivery_api.Models.ParcelType.{ParcelType}
use parcel_delivery_api.Models.Parcel.{Parcel, columns}
use parcel_delivery_api.Models.Database.{Database}
use parcel_delivery_api.Services.Parcel.{
  ParcelCreate, ParcelFilterParams, commit_new, create_from_dto, get_owned, list_owned, owned_by,
  matches,
}
use parcel_delivery_api.Services.Parcel.Ownership.{create_then_get}
use parcel_delivery_api.Services.Parcel.Listing.{list_owned_page, pages_join}

abbrev pub electronics : ParcelType
electronics = record { id = "t1"; name = "electronics" }

abbrev pub phone : ParcelCreate
phone = record {
  name = "phone";
  weight_kg = decimal 12 1;
  declared_value_usd = decimal 50 0;
  parcel_type_id = "t1";
}

abbrev pub stored : Parcel
stored = record {
  id = "p1";
  name = "laptop";
  weight_kg = decimal 2000 3;
  declared_value_usd = decimal 90000 2;
  session_id = "s1";
  delivery_cost_rub = none;
  parcel_type_id = "t1";
  user_id = none;
}

abbrev pub sessions : Settings
sessions = record default_settings { auth_required = false }

abbrev pub start : Database memory
start = record {
  users = [];
  refresh_tokens = [];
  parcel_types = electronics ∷ [];
  parcels = stored ∷ [];
}

abbrev phone_row : Parcel
phone_row = record {
  id = "p2";
  name = "phone";
  weight_kg = decimal 1200 3;
  declared_value_usd = decimal 5000 2;
  session_id = "s1";
  delivery_cost_rub = none;
  parcel_type_id = "t1";
  user_id = none;
}

abbrev with_phone : Database memory
with_phone = record start { parcels = phone_row ∷ stored ∷ [] }

phone_created : create_from_dto memory sessions phone "s1" "p2" start ≡ (ok phone_row, with_phone)
unfolding create_from_dto commit_new le_zero columns negative_value
phone_created = refl

create_then_get_example :
    (get_owned memory sessions "p2" "s1" with_phone ≡ (ok phone_row, with_phone))
    × ((other : String)
        → other ≢ "s1"
        → get_owned memory sessions "p2" other with_phone
          ≡ (raised (unauthorized_error "Parcel not found"), with_phone))
create_then_get_example =
    create_then_get memory sessions phone "s1" "p2" start with_phone phone_row phone_created

abbrev weightless : ParcelCreate
weightless = record phone { weight_kg = decimal 0 0 }

weightless_refused :
    create_from_dto memory sessions weightless "s1" "p2" start
    ≡ (raised (business_error "Weight must be positive"), start)
unfolding create_from_dto commit_new le_zero
weightless_refused = refl

abbrev pub anything : ParcelFilterParams
anything = record { type_id = none; has_cost = some false }

list_owned_page_example :
    (page : List Parcel) × (list_owned memory sessions "s1" anything 1 1 with_phone
      ≡ (ok (2, page), with_phone))
    × (length page ≡ 1)
    × ((p : Parcel)
        → Has p page
        → Has p (phone_row ∷ stored ∷ [])
          × (owned_by sessions "s1" p ≡ true)
          × (matches anything p ≡ true))
unfolding owned_by matches
list_owned_page_example = list_owned_page memory sessions "s1" anything 1 1 with_phone

pages_join_example :
    (total : ℕ) × (first_page : List Parcel) × (second_page : List Parcel) × (list_owned memory
        sessions "s1" anything 1 0 with_phone
      ≡ (ok (total, first_page), with_phone))
    × (list_owned memory sessions "s1" anything 1 1 with_phone
        ≡ (ok (total, second_page), with_phone))
    × (list_owned memory sessions "s1" anything 2 0 with_phone
        ≡ (ok (total, first_page ++ second_page), with_phone))
    × Ascending (λ p q. text_le p.id q.id) (first_page ++ second_page)
pages_join_example = pages_join memory sessions "s1" anything 1 1 0 with_phone

listed_both :
    list_owned memory sessions "s1" anything 20 0 with_phone
    ≡ (ok (2, stored ∷ phone_row ∷ []), with_phone)
unfolding list_owned owned_by matches
listed_both = refl
