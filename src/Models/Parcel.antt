-- ===== src/Models/Parcel.antt =====
-- app/models/parcel.py
pub mod Stored
use parcel_delivery_api.Base.{
  String, Bool, true, Option, none, some, List, ◌==◌, ◌&&◌, not, ℕ, leb, if◌then◌else◌,
}
use parcel_delivery_api.Base.Rows.{none_of}
use parcel_delivery_api.Core.Text.Search.{text_length}
use parcel_delivery_api.Core.Decimal.{Decimal, le_zero, negative_value}
use parcel_delivery_api.Db.Sql.{Sql}
use parcel_delivery_api.Models.User.{User}
use parcel_delivery_api.Models.ParcelType.{ParcelType}

pub record Parcel : Type 0 where
  pub id : String
  pub name : String
  pub weight_kg : Decimal
  pub declared_value_usd : Decimal
  pub session_id : String
  pub delivery_cost_rub : Option Decimal
  pub parcel_type_id : String
  pub user_id : Option String

-- FOREIGN KEY (user_id) REFERENCES user (id), for a value that is not NULL
abbrev pub references_user : List User → Option String → Bool
references_user users none = true
references_user users (some i) = not (none_of (λ u. u.id == i) users)

-- CHECK (delivery_cost_rub >= 0 OR delivery_cost_rub IS NULL)
abbrev pub cost_allowed : Option Decimal → Bool
cost_allowed none = true
cost_allowed (some c) = not (negative_value c)

-- PRIMARY KEY, the foreign keys and the three CHECK constraints
abbrev pub accepts_parcel : List User → List ParcelType → List Parcel → Parcel → Bool
accepts_parcel users types parcels p =
    none_of (λ q. q.id == p.id) parcels
    && (not (none_of (λ t. t.id == p.parcel_type_id) types)
        && (references_user users p.user_id
            && (not (le_zero p.weight_kg)
                && (not (negative_value p.declared_value_usd)
                    && cost_allowed p.delivery_cost_rub))))

abbrev pub fits : ℕ → String → Bool
fits limit t = leb (text_length t) limit

abbrev pub optional_fits : ℕ → Option String → Bool
optional_fits limit none = true
optional_fits limit (some t) = fits limit t

-- String(36) and String(255); an excess of spaces alone, which MySQL cuts off, counts as too long.
abbrev pub texts_fit : Parcel → Bool
texts_fit p =
    fits 36 p.id
    && (fits 255 p.name
        && (fits 255 p.session_id && (fits 36 p.parcel_type_id && optional_fits 36 p.user_id)))

module _ (sql : Sql) where
  open sql use {numeric}

  abbrev pub cost_column : Decimal → Option Decimal
  cost_column c = numeric 12 2 c

  abbrev optional_cost : Option Decimal → Option (Option Decimal)
  optional_cost none = some none
  optional_cost (some c) = elim (cost_column c) [ none ↦ none | some d ↦ some (some d) ]

  abbrev pub decimals : Parcel → Option Parcel
  decimals p = elim (numeric 10 3 p.weight_kg) [
    | none ↦ none
    | some w ↦ elim (numeric 12 2 p.declared_value_usd) [
      | none ↦ none
      | some v ↦ elim (optional_cost p.delivery_cost_rub) [
        | none ↦ none
        | some c ↦ some (record p { weight_kg = w; declared_value_usd = v; delivery_cost_rub = c })
      ]
    ]
  ]

  -- The row as its String, Numeric(10, 3) and Numeric(12, 2) columns hold it, if they can.
  unfoldable pub columns : Parcel → Option Parcel
  columns p = if texts_fit p then decimals p else none
