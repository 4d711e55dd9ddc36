-- ===== src/Schemas/Parcel/Creation.antt =====
-- What becomes of a payload that has passed its schema.
use native.Mathlib.Nat.{div-lt_iff_lt-mul, le-div_iff_mul-le, mul-le-mul, one-le-pow}
use parcel_delivery_api.Base.{
  ℕ, ◌+◌, ◌*◌, ◌/◌, ◌^◌, ◌≤◌, ◌<◌, ◌≡◌, ◌≢◌, ◌↔◌, ◌⊎◌, refl, sym, ap, ◌∙◌, String, Bool-cases, true,
  false, none, some, inl, inr, arith, ltb, ltb→lt, ltb→le, if◌then◌else◌, ne_of_eq-false, ◌==◌,
}
use parcel_delivery_api.Core.Exceptions.{business_error, data_error}
use parcel_delivery_api.Core.Action.{Result, raised}
use parcel_delivery_api.Core.Settings.{Settings}
use parcel_delivery_api.Core.Decimal.{Decimal, rounded, at_places, le_zero}
use parcel_delivery_api.Db.Sql.{Sql}
use parcel_delivery_api.Models.Parcel.{Parcel, columns, decimals, texts_fit}
use parcel_delivery_api.Models.Database.{Database}
use parcel_delivery_api.Services.Parcel.{ParcelCreate, unknown_type, new_parcel, create_from_dto}
use parcel_delivery_api.Core.Text.Search.{text_length}
use parcel_delivery_api.Services.Parcel.KnownType.{IsKnown, unknown_type-IsKnown}
use mathlib.Core.Bool.{true≢false}
use parcel_delivery_api.Services.Parcel.Ownership.{create_branches, accepted}
use parcel_delivery_api.Schemas.Parcel.{DigitRules, valid_parcel}

-- A whole number of units is not rounded.
units-div : (n unit x : ℕ) → 1 ≤ unit → x ≡ n * unit → (2 * x + unit) / (2 * unit) ≡ n
units-div n unit x pos e =
    let positive : 0 < 2 * unit = omega (arith, pos) in
    let at_most : n * (2 * unit) ≤ 2 * x + unit = omega (arith, e) in
    let below : 2 * x + unit < (n + 1) * (2 * unit) = omega (arith, e, pos) in
    let low = (le-div_iff_mul-le {k = 2 * unit} {x = n} {y = 2 * x + unit} positive).1 at_most in
    let high = (div-lt_iff_lt-mul {k = 2 * unit} {x = 2 * x + unit} {y = n + 1} positive).1 below in
    omega (arith, low, high)

rounded-units :
    (d : Decimal) (n places : ℕ)
    → d.coefficient * 10 ^ places ≡ n * 10 ^ d.places
    → rounded d places ≡ n
rounded-units d n places e =
    units-div n (10 ^ d.places) (d.coefficient * 10 ^ places) (one-le-pow d.places 10 (omega arith))
      e

-- So many cents are ten digits before the point.
cents-lt : (c m unit : ℕ) → c * 100 ≡ m * unit → m < 10 ^ 12 → 1 ≤ unit → c < 10 ^ 10 * unit
cents-lt c m unit e lt pos =
    let product : (m + 1) * unit ≤ 10 ^ 12 * unit = mul-le-mul (omega (arith, lt)) (omega arith) in
    omega (arith, e, product, pos)

cents-le : (c m unit : ℕ) → c * 100 ≡ m * unit → 10 ^ 12 ≤ m → 10 ^ 10 * unit ≤ c
cents-le c m unit e le =
    let product : 10 ^ 12 * unit ≤ m * unit = mul-le-mul le (omega arith) in
    omega (arith, e, product)

abbrev message : Result Parcel → String
message (raised (business_error m)) = m
message r = ""

other_message : ◌≢◌ {A = String} "Unknown parcel type" "Weight must be positive"
other_message = ne_of_eq-false "Unknown parcel type" "Weight must be positive" refl

module _ (rules : DigitRules) where
  record Checked (dto : ParcelCreate) : Type 0 where
    pub name_length : text_length dto.name ≤ 255
    pub positive : le_zero dto.weight_kg ≡ false
    pub weight_digits : rules.passes 10 3 dto.weight_kg ≡ true
    pub value_digits : rules.passes 14 2 dto.declared_value_usd ≡ true

  valid-Checked : (dto : ParcelCreate) → valid_parcel rules dto ≡ true → Checked dto
  unfolding valid_parcel
  valid-Checked dto h = record {
    name_length = ground (arith, h);
    positive = ground (arith, h);
    weight_digits = ground (arith, h);
    value_digits = ground (arith, h);
  }

  module _ (sql : Sql) (settings : Settings) where
    open sql use {rows, numeric, scalar}

    -- The length of the column that holds the owner.
    abbrev pub owner_limit : ℕ
    owner_limit = if settings.auth_required then 36 else 255

    -- What the columns of a checked payload cannot hold.
    abbrev pub IsTooLong : ParcelCreate → String → Type 0
    IsTooLong dto owner =
        (owner_limit < text_length owner)
        ⊎ ((36 < text_length dto.parcel_type_id)
            ⊎ (10 ^ 10 * 10 ^ dto.declared_value_usd.places ≤ dto.declared_value_usd.coefficient))

    texts-cases :
        (dto : ParcelCreate) (owner id : String)
        → text_length id ≤ 36
        → Checked dto
        → ((owner_limit < text_length owner) ⊎ (36 < text_length dto.parcel_type_id))
            × (texts_fit (new_parcel sql settings dto owner id) ≡ false)
          ⊎ ((text_length owner ≤ owner_limit)
              × (text_length dto.parcel_type_id ≤ 36)
              × (texts_fit (new_parcel sql settings dto owner id) ≡ true))
    texts-cases dto owner id short k = elim (Bool-cases settings.auth_required) [
      | inl e ↦
          let session : text_length (if settings.auth_required then "" else owner) ≡ 0 =
            rw e refl in
          ground (arith, e, k.name_length, session)
      | inr e ↦
          let session : text_length (if settings.auth_required then "" else owner)
              ≡ text_length owner =
            rw e refl in
          ground (arith, e, k.name_length, session)
    ]

    decimals-cases :
        (dto : ParcelCreate) (owner id : String)
        → Checked dto
        → ((dto.declared_value_usd.coefficient < 10 ^ 10 * 10 ^ dto.declared_value_usd.places)
            × ((q : Parcel) × (decimals sql (new_parcel sql settings dto owner id) ≡ some q)))
          ⊎ ((10 ^ 10 * 10 ^ dto.declared_value_usd.places ≤ dto.declared_value_usd.coefficient)
              × (decimals sql (new_parcel sql settings dto owner id) ≡ none))
    decimals-cases dto owner id k =
        let v = dto.declared_value_usd in
        let w = dto.weight_kg in
        let unit = 10 ^ v.places in
        let pos : 1 ≤ unit = one-le-pow v.places 10 (omega arith) in
        let (n, en, ln) = rules.passes-units 10 3 w k.weight_digits in
        let (m, em, lm) = rules.passes-units 14 2 v k.value_digits in
        let weight_fits : rounded w 3 < 10 ^ 10 = rw (← rounded-units w n 3 en) at ln in
        let weight = sql.numeric_stored 10 3 w weight_fits in
        elim (Bool-cases (ltb m (10 ^ 12))) [
          | inl b ↦
              let lt = ltb→lt m (10 ^ 12) b in
              let fits : rounded v 2 < 10 ^ 12 = rw (← rounded-units v m 2 em) at lt in
              inl (
                cents-lt v.coefficient m unit em lt pos,
                (
                  record (new_parcel sql settings dto owner id) {
                    weight_kg = at_places w 3;
                    declared_value_usd = at_places v 2;
                  },
                  rw (decimals, weight, sql.numeric_stored 12 2 v fits) refl,
                ),
              )
          | inr b ↦
              let le = ltb→le m (10 ^ 12) b in
              let over : 10 ^ 12 ≤ rounded v 2 = rw (← rounded-units v m 2 em) at le in
              inr (
                cents-le v.coefficient m unit em le,
                rw (decimals, weight, sql.numeric_overflow 12 2 v over) refl,
              )
        ]

    -- The columns hold a checked payload exactly when no text and no value of it is too long.
    columns-cases :
        (dto : ParcelCreate) (owner id : String)
        → text_length id ≤ 36
        → Checked dto
        → (¬ (IsTooLong dto owner)
            × ((q : Parcel) × (columns sql (new_parcel sql settings dto owner id) ≡ some q)))
          ⊎ (IsTooLong dto owner × (columns sql (new_parcel sql settings dto owner id) ≡ none))
    unfolding columns
    columns-cases dto owner id short k = elim (texts-cases dto owner id short k) [
      | inl (why, e) ↦ inr (elim why [ inl o ↦ inl o | inr t ↦ inr (inl t) ], rw e refl)
      | inr (o, t, e) ↦ elim (decimals-cases dto owner id k) [
        | inl (lt, (q, c)) ↦ inl (
          λ long. elim long [
            | inl o' ↦ omega (arith, o, o')
            | inr (inl t') ↦ omega (arith, t, t')
            | inr (inr le) ↦ omega (arith, lt, le)
          ],
          (q, rw (e, c) refl),
        )
        | inr (le, c) ↦ inr (inr (inr le), rw (e, c) refl)
      ]
    ]

    -- A payload that has passed its schema, with an id of at most 36 characters as `str(uuid4())` has:
    -- it is never refused for its weight, and creating its parcel fails with a DataError exactly when a
    -- type with its type id is stored, under an id that is not empty, and the owner has more
    -- characters than its column (36 for a user, 255 for a session), or the type id more than 36, or
    -- the declared value more than ten digits before the point.
    pub validated_creation :
        (dto : ParcelCreate) (owner id : String) (s : Database sql)
        → text_length id ≤ 36
        → valid_parcel rules dto ≡ true
        → let r = (create_from_dto sql settings dto owner id s).0 in
          (r ≢ raised (business_error "Weight must be positive"))
          × ((r ≡ raised data_error)
              ↔ (IsKnown (rows s.parcel_types) dto.parcel_type_id × IsTooLong dto owner))
    validated_creation dto owner id s short h =
        let k = valid-Checked dto h in
        let (unknown, light, no_columns, refused, created) =
          create_branches sql settings dto owner id s in
        let t = scalar (λ t. t.id == dto.parcel_type_id) s.parcel_types in
        let (to, from) = unknown_type-IsKnown sql s.parcel_types dto.parcel_type_id in
        elim (Bool-cases (unknown_type t)) [
          | inl u ↦
              let r = ap (λ q. q.0) (unknown u) in
              (
                λ e. other_message (ap message (sym r ∙ e)),
                (λ e. ground (arith, r, e), λ g. absurd (true≢false (sym u ∙ from g.0))),
              )
          | inr u ↦ elim (columns-cases dto owner id short k) [
            | inr (le, c) ↦
                let r = ap (λ q. q.0) (no_columns u k.positive c) in
                (λ e. ground (arith, r, e), (λ e. (to u, le), λ g. r))
            | inl (fits, (q, c)) ↦ elim (Bool-cases (accepted sql settings s q)) [
              | inl a ↦
                  let r = ap (λ x. x.0) (created q u k.positive c a) in
                  (λ e. ground (arith, r, e), (λ e. ground (arith, r, e), λ g. absurd (fits g.1)))
              | inr a ↦
                  let r = ap (λ x. x.0) (refused q u k.positive c a) in
                  (λ e. ground (arith, r, e), (λ e. ground (arith, r, e), λ g. absurd (fits g.1)))
            ]
          ]
        ]
