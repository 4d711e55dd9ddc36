-- ===== src/Db/Memory.antt =====
-- An engine over plain lists, which shows that the laws can be met; the witnesses run on it.
use parcel_delivery_api.Base.{
  ℕ, ◌^◌, not, ◌≤◌, ◌<◌, ◌≡◌, refl, String, Bool, Option, none, some, List, [], ◌∷◌, ltb, lt→ltb,
  le→ltb, if◌then◌else◌,
}
use parcel_delivery_api.Base.Rows.{first, select, rewrite}
use parcel_delivery_api.Base.Rows.Sorting.{sort, length-sort, sort-Has, sort-Ascending}
use parcel_delivery_api.Core.Text.Order.{text_le, text_le_total}
use parcel_delivery_api.Core.Decimal.{Decimal, rounded, at_places}
use parcel_delivery_api.Db.Sql.{Sql}

abbrev pub within : ℕ → ℕ → Decimal → Option Decimal
within limit scale d = if ltb (rounded d scale) limit then some (at_places d scale) else none

abbrev pub to_numeric : ℕ → ℕ → Decimal → Option Decimal
to_numeric precision scale d = within (10 ^ precision) scale d

pub within_stored :
    (limit scale : ℕ) (d : Decimal)
    → rounded d scale < limit
    → within limit scale d ≡ some (at_places d scale)
within_stored limit scale d lt = rw (lt→ltb (rounded d scale) limit lt) refl

pub within_overflow :
    (limit scale : ℕ) (d : Decimal) → limit ≤ rounded d scale → within limit scale d ≡ none
within_overflow limit scale d le = rw (le→ltb (rounded d scale) limit le) refl

abbrev by_key : {Row : Type 0} → (Row → String) → Row → Row → Bool
by_key key x y = text_le (key x) (key y)

abbrev pub memory : Sql
memory = record {
  Table = List;
  rows = λ t. t;
  scalar = first;
  scalars = select;
  add = λ r t. r ∷ t;
  update = rewrite;
  delete = λ test. select (λ r. not (test r));
  text_le = text_le;
  ordered = λ key test t. sort (by_key key) (select test t);
  numeric = to_numeric;
  scalar_lem = λ test t. refl;
  scalars_lem = λ test t. refl;
  add_lem = λ r t. ([], t, refl, refl);
  update_lem = λ test f t. refl;
  delete_lem = λ test t. refl;
  ordered-length = λ key test t. length-sort (by_key key) (select test t);
  ordered-Has = λ key test t. sort-Has (by_key key) (select test t);
  ordered-Ascending = λ key test t.
      sort-Ascending (by_key key) (λ x y. text_le_total (key x) (key y)) (select test t);
  numeric_stored = λ precision scale. within_stored (10 ^ precision) scale;
  numeric_overflow = λ precision scale. within_overflow (10 ^ precision) scale;
}
