-- ===== src/Schemas/Parcel.antt =====
-- The constraints of app/schemas/parcel.py and of PaginationParams in app/schemas/common.py.
pub mod Creation
pub mod Pages
use parcel_delivery_api.Base.{ℕ, ◌*◌, ◌^◌, ◌<◌, ◌≡◌, Bool, true, ◌&&◌, not, leb}
use parcel_delivery_api.Core.Decimal.{Decimal, le_zero, negative_value}
use parcel_delivery_api.Core.Text.Search.{text_length}
use parcel_delivery_api.Services.Parcel.{ParcelCreate}
use parcel_delivery_api.Api.Parcel.{PaginationParams}

-- Pydantic's `max_digits` and `decimal_places` of a Decimal. What passes is a whole number of units in
-- the last of the places, of at most the digits.
pub record DigitRules : Type 0 where
  pub passes : ℕ → ℕ → Decimal → Bool
  pub passes-units :
      (max_digits places : ℕ) (d : Decimal)
      → passes max_digits places d ≡ true
      → (n : ℕ) × (d.coefficient * 10 ^ places ≡ n * 10 ^ d.places) × (n < 10 ^ max_digits)

module _ (rules : DigitRules) where
  abbrev pub positive_weight : Decimal → Bool
  positive_weight w = not (le_zero w) && rules.passes 10 3 w

  abbrev pub non_negative_money : Decimal → Bool
  non_negative_money v = not (negative_value v) && rules.passes 14 2 v

  unfoldable pub valid_parcel : ParcelCreate → Bool
  valid_parcel dto =
      leb (text_length dto.name) 255
      && positive_weight dto.weight_kg
      && non_negative_money dto.declared_value_usd

abbrev pub valid_pagination : PaginationParams → Bool
valid_pagination pagination = leb 1 pagination.limit && leb pagination.limit 100
