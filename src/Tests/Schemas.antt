-- ===== src/Tests/Schemas.antt =====
-- app/schemas
use native.Mathlib.Nat.{mod-add-div'}
use parcel_delivery_api.Base.{
  ℕ, ◌*◌, ◌/◌, ◌%◌, ◌^◌, ◌≤◌, ◌<◌, ◌≡◌, ◌≢◌, ◌↔◌, refl, Bool, true, ◌&&◌, arith, ltb, leb,
}
use parcel_delivery_api.Core.Action.{raised}
use parcel_delivery_api.Core.Decimal.{Decimal, decimal, le_zero, negative_value}
use parcel_delivery_api.Core.Exceptions.{business_error, data_error}
use parcel_delivery_api.Db.Memory.{memory}
use parcel_delivery_api.Services.Parcel.{ParcelCreate, create_from_dto}
use parcel_delivery_api.Services.Parcel.KnownType.{IsKnown}
use parcel_delivery_api.Schemas.Parcel.{DigitRules, valid_parcel}
use parcel_delivery_api.Schemas.Parcel.Creation.{IsTooLong, validated_creation}
use parcel_delivery_api.Tests.Parcel.{start, phone, sessions}

abbrev whole_units : ℕ → ℕ → Decimal → Bool
whole_units max_digits places d =
    let n = d.coefficient * 10 ^ places in
    let unit = 10 ^ d.places in leb (n % unit) 0 && ltb (n / unit) (10 ^ max_digits)

pub whole :
    (n unit limit : ℕ)
    → (leb (n % unit) 0 && ltb (n / unit) limit) ≡ true
    → (n ≡ (n / unit) * unit) × (n / unit < limit)
whole n unit limit h =
    let a : n % unit ≤ 0 = ground (arith, h) in
    let b : n / unit < limit = ground (arith, h) in
    let e = mod-add-div' n unit in (omega (arith, a, e), b)

abbrev pub rules : DigitRules
rules = record {
  passes = whole_units;
  passes-units = λ max_digits places d h.
      let n = d.coefficient * 10 ^ places in
      let (e, lt) = whole n (10 ^ d.places) (10 ^ max_digits) h in (n / 10 ^ d.places, e, lt);
}

-- Eleven digits before the point
abbrev yacht : ParcelCreate
yacht = record phone { name = "yacht"; declared_value_usd = decimal 12345678901 0 }

yacht_valid : valid_parcel rules yacht ≡ true
unfolding valid_parcel le_zero negative_value
yacht_valid = refl

validated_creation_example :
    let r = (create_from_dto memory sessions yacht "s1" "p2" start).0 in
    (r ≢ raised (business_error "Weight must be positive"))
    × ((r ≡ raised data_error)
        ↔ (IsKnown start.parcel_types "t1" × IsTooLong rules memory sessions yacht "s1"))
validated_creation_example =
    validated_creation rules memory sessions yacht "s1" "p2" start (omega arith) yacht_valid
