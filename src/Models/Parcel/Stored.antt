-- ===== src/Models/Parcel/Stored.antt =====
-- The rows that the columns of app/models/parcel.py can hold.
use parcel_delivery_api.Base.{
  ℕ, ◌^◌, ◌≤◌, ◌<◌, ◌≡◌, sym, ap, ◌∙◌, Bool, true, false, some, arith, ltb, ltb→lt, ltb→le, ◌&&◌,
  Bool-cases, Option-cases, inl, inr,
}
use parcel_delivery_api.Core.Decimal.{Decimal, decimal, rounded, at_places, negative_value, le_zero}
use parcel_delivery_api.Db.Sql.{Sql}
use parcel_delivery_api.Models.User.{User}
use parcel_delivery_api.Models.ParcelType.{ParcelType}
use parcel_delivery_api.Base.{List}
use parcel_delivery_api.Models.Parcel.{Parcel, columns, accepts_parcel}

-- A positive weight of seven digits and three places, and a value of ten digits and two places.
pub record IsStored (p : Parcel) : Type 0 where
  pub weight : p.weight_kg ≡ decimal p.weight_kg.coefficient 3
  pub weight_limit : p.weight_kg.coefficient < 10 ^ 10
  pub weight_positive : 0 < p.weight_kg.coefficient
  pub value : p.declared_value_usd ≡ decimal p.declared_value_usd.coefficient 2
  pub value_limit : p.declared_value_usd.coefficient < 10 ^ 12

positive_value :
    (w : Decimal) (p : ℕ)
    → w.places ≡ p
    → le_zero w ≡ false
    → (w ≡ decimal w.coefficient p) × (0 < w.coefficient)
unfolding le_zero
positive_value w p e h = ground arith

not_negative_value :
    (v : Decimal) (p n : ℕ) (s : Bool)
    → v ≡ record { negative = s && ltb 0 n; coefficient = n; places = p }
    → negative_value v ≡ false
    → v ≡ decimal v.coefficient p
unfolding negative_value
not_negative_value v p n s e h = ground arith

row_tests :
    (users : List User) (types : List ParcelType) (parcels : List Parcel) (q : Parcel)
    → accepts_parcel users types parcels q ≡ true
    → (le_zero q.weight_kg ≡ false) × (negative_value q.declared_value_usd ≡ false)
row_tests users types parcels q a = (ground arith, ground arith)

module _ (sql : Sql) where
  open sql use {numeric}

  pub numeric-some :
      (precision scale : ℕ) (d q : Decimal)
      → numeric precision scale d ≡ some q
      → (q ≡ at_places d scale) × (rounded d scale < 10 ^ precision)
  numeric-some precision scale d q h = elim (Bool-cases (ltb (rounded d scale) (10 ^ precision))) [
    | inl e ↦
        let lt = ltb→lt (rounded d scale) (10 ^ precision) e in
        (cc (sql.numeric_stored precision scale d lt), lt)
    | inr e ↦
        let le : 10 ^ precision ≤ rounded d scale = ltb→le (rounded d scale) (10 ^ precision) e in
        cc (sql.numeric_overflow precision scale d le)
  ]

  -- What a row holds after the columns and the constraints have taken it.
  pub columns-IsStored :
      (users : List User) (types : List ParcelType) (parcels : List Parcel) (p q : Parcel)
      → columns sql p ≡ some q
      → accepts_parcel users types parcels q ≡ true
      → IsStored q
  unfolding columns
  columns-IsStored users types parcels p q h a = elim (Option-cases (numeric 10 3 p.weight_kg)) [
    | inl e ↦ absurd (ground (arith, e))
    | inr (w, e) ↦ elim (Option-cases (numeric 12 2 p.declared_value_usd)) [
      | inl e' ↦ absurd (ground (arith, e, e'))
      | inr (v, e') ↦
          let (we, wl) = numeric-some 10 3 p.weight_kg w e in
          let (ve, vl) = numeric-some 12 2 p.declared_value_usd v e' in
          let qw : q.weight_kg ≡ w = ground (arith, e, e') in
          let qv : q.declared_value_usd ≡ v = ground (arith, e, e') in
          let kept = row_tests users types parcels q a in
          let (wd, wp) = positive_value q.weight_kg 3 (ap (λ d. d.places) (qw ∙ we)) kept.0 in
          record {
            weight = wd;
            weight_limit = rw (sym (ap (λ d. d.coefficient) (qw ∙ we))) at wl;
            weight_positive = wp;
            value =
                not_negative_value q.declared_value_usd 2 (rounded p.declared_value_usd 2)
                  p.declared_value_usd.negative (qv ∙ ve) kept.1;
            value_limit = rw (sym (ap (λ d. d.coefficient) (qv ∙ ve))) at vl;
          }
    ]
  ]
