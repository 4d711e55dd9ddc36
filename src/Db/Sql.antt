-- ===== src/Db/Sql.antt =====
-- The interface of the database engine, one operation for each form of statement in app/services
-- and app/tasks. In what order a SELECT with no ORDER BY yields the rows is the engine's choice:
-- `rows` is that order, and `add` puts a new row at a place of the engine's choice.
use parcel_delivery_api.Base.{
  ℕ, ◌≡◌, ◌↔◌, ◌≤◌, not, ◌<◌, ◌^◌, String, Bool, Option, none, some, List, ◌∷◌, ◌++◌, length,
}
use parcel_delivery_api.Base.Rows.{Has, first, select, rewrite}
use parcel_delivery_api.Base.Rows.Sorting.{Ascending}
use parcel_delivery_api.Core.Decimal.{Decimal, rounded, at_places}

pub record Sql : Type 1 where
  pub Table : Type 0 → Type 0
  pub rows : {Row : Type 0} → Table Row → List Row
  -- session.scalar(select(Row).where(test))
  pub scalar : {Row : Type 0} → (Row → Bool) → Table Row → Option Row
  -- session.scalars(select(Row).where(test)).all()
  pub scalars : {Row : Type 0} → (Row → Bool) → Table Row → List Row
  -- INSERT of a row that the constraints allow
  pub add : {Row : Type 0} → Row → Table Row → Table Row
  -- UPDATE ... WHERE test
  pub update : {Row : Type 0} → (Row → Bool) → (Row → Row) → Table Row → Table Row
  -- DELETE ... WHERE test
  pub delete : {Row : Type 0} → (Row → Bool) → Table Row → Table Row
  -- The collation of ORDER BY
  pub text_le : String → String → Bool
  -- SELECT ... WHERE test ORDER BY key
  pub ordered : {Row : Type 0} → (Row → String) → (Row → Bool) → Table Row → List Row
  -- What a NUMERIC(precision, scale) column stores, rounding half away from zero; `none` is a value
  -- out of range, a DataError
  pub numeric : ℕ → ℕ → Decimal → Option Decimal
  pub scalar_lem :
      {Row : Type 0} (test : Row → Bool) (t : Table Row) → scalar test t ≡ first test (rows t)
  pub scalars_lem :
      {Row : Type 0} (test : Row → Bool) (t : Table Row) → scalars test t ≡ select test (rows t)
  pub add_lem :
      {Row : Type 0} (r : Row) (t : Table Row)
      → (front : List Row) × (back : List Row) × (rows t ≡ front ++ back)
        × (rows (add r t) ≡ front ++ (r ∷ back))
  pub update_lem :
      {Row : Type 0} (test : Row → Bool) (f : Row → Row) (t : Table Row)
      → rows (update test f t) ≡ rewrite test f (rows t)
  pub delete_lem :
      {Row : Type 0} (test : Row → Bool) (t : Table Row)
      → rows (delete test t) ≡ select (λ r. not (test r)) (rows t)
  pub ordered-length :
      {Row : Type 0} (key : Row → String) (test : Row → Bool) (t : Table Row)
      → length (ordered key test t) ≡ length (select test (rows t))
  pub ordered-Has :
      {Row : Type 0} (key : Row → String) (test : Row → Bool) (t : Table Row) (r : Row)
      → Has r (ordered key test t) ↔ Has r (select test (rows t))
  pub ordered-Ascending :
      {Row : Type 0} (key : Row → String) (test : Row → Bool) (t : Table Row)
      → Ascending (λ x y. text_le (key x) (key y)) (ordered key test t)
  pub numeric_stored :
      (precision scale : ℕ) (d : Decimal)
      → rounded d scale < 10 ^ precision
      → numeric precision scale d ≡ some (at_places d scale)
  pub numeric_overflow :
      (precision scale : ℕ) (d : Decimal)
      → 10 ^ precision ≤ rounded d scale
      → numeric precision scale d ≡ none
