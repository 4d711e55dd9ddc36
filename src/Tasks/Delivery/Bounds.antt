-- ===== src/Tasks/Delivery/Bounds.antt =====
-- The size of the prices: where the formula is exact, and up to which rate every price fits its column.
use native.Mathlib.Nat.{mul-le-mul, div-lt_iff_lt-mul, pow-succ', one-le-pow}
use parcel_delivery_api.Base.{
  ℕ, suc, ◌+◌, ◌*◌, ◌^◌, ◌≤◌, ◌<◌, ◌≡◌, refl, ap, ◌∙◌, Bool, false, List, arith, lt→ltb,
}
use mathlib.Core.Bool.{xor}
use parcel_delivery_api.Base.Rows.{All}
use parcel_delivery_api.Base.Rows.Members.{All-map}
use parcel_delivery_api.Core.Exceptions.{data_error}
use parcel_delivery_api.Core.Action.{ok, raised}
use parcel_delivery_api.Core.Settings.{default_settings}
use parcel_delivery_api.Core.Decimal.{
  decimal, ◌*ᴰ◌, ◌+ᴰ◌, in_context, context_limit, rounded, at_places, negative_value,
}
use parcel_delivery_api.Db.Sql.{Sql}
use parcel_delivery_api.Models.Parcel.{Parcel}
use parcel_delivery_api.Models.Parcel.Stored.{IsStored}
use parcel_delivery_api.Services.Parcel.{stored_cost}
use parcel_delivery_api.Tasks.Delivery.{formula, cost_of}
use parcel_delivery_api.Tasks.Delivery.Pricing.{Fits}

in_context-exact :
    (s : Bool) (n p : ℕ)
    → n < context_limit
    → in_context s n p ≡ record { negative = s; coefficient = n; places = p }
unfolding in_context
in_context-exact s n p h = rw (lt→ltb n context_limit h) refl

mul-exact :
    (m n p q : ℕ) → m * n < context_limit → decimal m p *ᴰ decimal n q ≡ decimal (m * n) (p + q)
unfolding ◌*ᴰ◌ xor
mul-exact m n p q h = in_context-exact false (m * n) (p + q) h

-- Sums at the four places that both terms of the price have.
add-exact : (m n : ℕ) → m + n < context_limit → decimal m 4 +ᴰ decimal n 4 ≡ decimal (m + n) 4
unfolding ◌+ᴰ◌ xor
add-exact m n h =
    let e : m * 1 + n * 1 ≡ m + n = omega arith in
    ap (λ k. in_context false k 4) e ∙ in_context-exact false (m + n) 4 h

-- The weight in grams and the value in cents, times their coefficients, at four places.
abbrev pub base_units : ℕ → ℕ → ℕ
base_units grams cents = grams * 5 + cents * 1

base_units-lt :
    (grams cents : ℕ) → grams < 10 ^ 10 → cents < 10 ^ 12 → base_units grams cents ≤ 1049999999994
base_units-lt grams cents h k = omega arith

-- With the default coefficients, the price of what the columns can hold is not rounded: in units of
-- the last place it is the product of the weight's and the value's terms with the rate.
pub formula-exact :
    (grams cents r places : ℕ)
    → grams < 10 ^ 10
    → cents < 10 ^ 12
    → r < 10 ^ 15
    → formula default_settings (decimal grams 3) (decimal cents 2) (decimal r places)
      ≡ decimal (base_units grams cents * r) (4 + places)
unfolding formula
formula-exact grams cents r places h k l =
    let total = base_units grams cents in
    let below = base_units-lt grams cents h k in
    let product : total * r ≤ 1049999999994 * 10 ^ 15 =
      mul-le-mul {m₂ = 10 ^ 15} below (omega arith) in
    ap (λ d. (d +ᴰ decimal cents 2 *ᴰ decimal 1 2) *ᴰ decimal r places)
      (mul-exact grams 5 3 1 (omega arith))
    ∙ ap (λ d. (decimal (grams * 5) 4 +ᴰ d) *ᴰ decimal r places)
        (mul-exact cents 1 2 2 (omega arith))
    ∙ ap (λ d. d *ᴰ decimal r places) (add-exact (grams * 5) (cents * 1) (omega (arith, below)))
    ∙ mul-exact total r 4 places (omega (arith, product))

pow-four : (places : ℕ) → 10 ^ (4 + places) ≡ 10000 * 10 ^ places
pow-four places =
    let e : 4 + places ≡ suc (suc (suc (suc places))) = omega arith in
    let e' : 10 ^ (4 + places) ≡ 10 ^ suc (suc (suc (suc places))) = ap (λ (k : ℕ). 10 ^ k) e in
    omega (
      arith,
      e',
      pow-succ' 10 (suc (suc (suc places))),
      pow-succ' 10 (suc (suc places)),
      pow-succ' 10 (suc places),
      pow-succ' 10 places,
    )

ten_pow_positive : (places : ℕ) → 1 ≤ 10 ^ places
ten_pow_positive places = one-le-pow places 10 (omega arith)

-- At a rate of at most 95 a price has at most ten digits before the point.
rounded-lt :
    (total r places : ℕ)
    → total ≤ 1049999999994
    → r ≤ 95 * 10 ^ places
    → rounded (decimal (total * r) (4 + places)) 2 < 10 ^ 12
rounded-lt total r places h k =
    let unit = 10 ^ places in
    let product : total * r ≤ 1049999999994 * (95 * unit) = mul-le-mul h k in
    let positive = ten_pow_positive places in
    let e = pow-four places in
    (div-lt_iff_lt-mul (omega (arith, e, positive))).1 (omega (arith, e, positive, product))

module _ (sql : Sql) where
  cost_of-exact :
      (p : Parcel) (r places : ℕ)
      → IsStored p
      → r < 10 ^ 15
      → cost_of default_settings (decimal r places) p
        ≡ decimal
            (base_units p.weight_kg.coefficient p.declared_value_usd.coefficient * r)
            (4 + places)
  cost_of-exact p r places s l =
      let w = p.weight_kg.coefficient in
      let v = p.declared_value_usd.coefficient in
      ap (λ d. formula default_settings d p.declared_value_usd (decimal r places)) s.weight
      ∙ ap (λ d. formula default_settings (decimal w 3) d (decimal r places)) s.value
      ∙ formula-exact w v r places s.weight_limit s.value_limit l

  stored_cost-ok :
      (total r places : ℕ)
      → total ≤ 1049999999994
      → r ≤ 95 * 10 ^ places
      → stored_cost sql default_settings (decimal (total * r) (4 + places))
        ≡ ok (at_places (decimal (total * r) (4 + places)) 2)
  unfolding negative_value
  stored_cost-ok total r places h k = ground (
    arith,
    sql.numeric_stored 12 2 (decimal (total * r) (4 + places)) (rounded-lt total r places h k),
  )

  abbrev pub heaviest : Parcel → Parcel
  heaviest p = record p {
    weight_kg = decimal 9999999999 3;
    declared_value_usd = decimal 999999999999 2;
  }

  heaviest-IsStored : (p : Parcel) → IsStored (heaviest p)
  heaviest-IsStored p = record {
    weight = refl;
    weight_limit = omega arith;
    weight_positive = omega arith;
    value = refl;
    value_limit = omega arith;
  }

  stored_cost-raised :
      stored_cost sql default_settings (decimal (1049999999994 * 96) (4 + 0)) ≡ raised data_error
  stored_cost-raised =
      ground (arith, sql.numeric_overflow 12 2 (decimal (1049999999994 * 96) (4 + 0)) (omega arith))

  -- With the default coefficients and a rate from 0 to 95, of at most 15 digits, the price of every
  -- parcel that the table can hold fits the cost column, which then holds the product of the weight's
  -- and the value's terms with the rate, rounded once, to two places. The bound cannot be 96: at that
  -- rate some parcel that the table can hold has a price that is out of range.
  pub price_bound :
      (p : Parcel) (r places : ℕ)
      → IsStored p
      → r < 10 ^ 15
      → r ≤ 95 * 10 ^ places
      → (stored_cost sql default_settings (cost_of default_settings (decimal r places) p)
          ≡ ok (
              at_places
                (decimal
                  (base_units p.weight_kg.coefficient p.declared_value_usd.coefficient * r)
                  (4 + places))
                2))
        × IsStored (heaviest p)
        × (stored_cost sql default_settings (cost_of default_settings (decimal 96 0) (heaviest p))
            ≡ raised data_error)
  price_bound p r places s l k =
      let whole = heaviest-IsStored p in
      (
        ap (stored_cost sql default_settings) (cost_of-exact p r places s l)
            ∙ stored_cost-ok (base_units p.weight_kg.coefficient p.declared_value_usd.coefficient) r
                places
                (base_units-lt p.weight_kg.coefficient p.declared_value_usd.coefficient
                  s.weight_limit s.value_limit)
                k,
        whole,
        ap (stored_cost sql default_settings) (cost_of-exact (heaviest p) 96 0 whole (omega arith))
            ∙ stored_cost-raised,
      )

  -- While the rate is at most 95, no stored parcel stops the job: every price fits.
  pub stored-Fits :
      (parcels : List Parcel) (r places : ℕ)
      → All IsStored parcels
      → r < 10 ^ 15
      → r ≤ 95 * 10 ^ places
      → All (Fits sql default_settings (decimal r places)) parcels
  stored-Fits parcels r places a l k =
      All-map IsStored (Fits sql default_settings (decimal r places)) parcels
        (λ p s. (_, (price_bound p r places s l k).0)) a
