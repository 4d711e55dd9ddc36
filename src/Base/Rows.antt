-- ===== src/Base/Rows.antt =====
-- Lists of rows: the predicates and queries of which a table's laws speak.
pub mod Members
pub mod Updates
pub mod Keys
pub mod Counts
pub mod Queries
pub mod OneRow
pub mod Bag
pub mod Sorting
use Prim.Native.Nat.{ℕ, suc}
use Prim.Native.String.{String}
use text.Mathlib.Text.{◌==◌}
use mathlib.Core.Path.{◌≡◌}
use mathlib.Core.Logic.{◌⊎◌}
use mathlib.Core.Bool.{Bool, true, false, ◌&&◌}
use mathlib.Core.Option.{Option, none, some}
use mathlib.Core.List.{List, [], ◌∷◌}
use parcel_delivery_api.Base.Tests.{if◌then◌else◌}

module _ {A : Type 0} where
  abbrev pub Has : A → List A → Type 0
  Has a [] = ⊥
  Has a (x ∷ xs) = (a ≡ x) ⊎ Has a xs

  -- `P` holds of every row.
  abbrev pub All : (A → Type 0) → List A → Type 0
  All P [] = Unit
  All P (x ∷ xs) = P x × All P xs

  -- The first row that satisfies the test.
  abbrev pub first : (A → Bool) → List A → Option A
  first p [] = none
  first p (x ∷ xs) = if p x then some x else first p xs

  -- The rows that satisfy the test, in order.
  abbrev pub select : (A → Bool) → List A → List A
  select p [] = []
  select p (x ∷ xs) = let rest = select p xs in if p x then x ∷ rest else rest

  -- The rows that satisfy the test, rewritten in place.
  abbrev pub rewrite : (A → Bool) → (A → A) → List A → List A
  rewrite p f [] = []
  rewrite p f (x ∷ xs) = (if p x then f x else x) ∷ rewrite p f xs

  -- No row satisfies the test.
  abbrev pub none_of : (A → Bool) → List A → Bool
  none_of p [] = true
  none_of p (x ∷ xs) = (if p x then false else true) && none_of p xs

  abbrev pub count : (A → Bool) → List A → ℕ
  count p [] = 0
  count p (x ∷ xs) = if p x then suc (count p xs) else count p xs

  -- No two rows have the same key.
  abbrev pub Distinct : (A → String) → List A → Type 0
  Distinct key [] = Unit
  Distinct key (x ∷ xs) = (none_of (λ y. key y == key x) xs ≡ true) × Distinct key xs
