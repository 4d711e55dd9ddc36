-- ===== src/Base/Rows/Queries.antt =====
-- What a query selects, and the parts of it that a page keeps.
use parcel_delivery_api.Base.Tests.{Bool-cases}
use parcel_delivery_api.Base.Lists.{length, take, drop}
use parcel_delivery_api.Base.Rows.{Has, select, count}
use Prim.Native.Nat.{ℕ, zero, suc}
use mathlib.Core.Path.{◌≡◌, refl, sym}
use mathlib.Core.Logic.{inl, inr}
use mathlib.Core.Bool.{Bool, true}
use mathlib.Core.List.{List, [], ◌∷◌}
use native.Mathlib.Omega.{arith}

module _ {A : Type 0} where
  pub length-select : (p : A → Bool) (xs : List A) → length (select p xs) ≡ count p xs
  length-select p [] = refl
  length-select p (x ∷ xs) = ground (arith, length-select p xs)

  pub Has-select :
      (p : A → Bool) (xs : List A) (x : A) → Has x xs → p x ≡ true → Has x (select p xs)
  Has-select p [] x m h = absurd m
  Has-select p (y ∷ xs) x (inl e) h = rw (sym e, h) (inl refl)
  Has-select p (y ∷ xs) x (inr m) h =
      let ih = Has-select p xs x m h in
      elim (Bool-cases (p y)) [ inl e ↦ rw e (inr ih) | inr e ↦ rw e ih ]

  pub select-Has : (p : A → Bool) (xs : List A) (x : A) → Has x (select p xs) → Has x xs
  select-Has p [] x m = absurd m
  select-Has p (y ∷ xs) x m = elim (Bool-cases (p y)) [
    | inl e ↦ elim (rw e at m) [ inl k ↦ inl k | inr k ↦ inr (select-Has p xs x k) ]
    | inr e ↦ inr (select-Has p xs x (rw e at m))
  ]

  pub select-true : (p : A → Bool) (xs : List A) (x : A) → Has x (select p xs) → p x ≡ true
  select-true p [] x m = absurd m
  select-true p (y ∷ xs) x m = elim (Bool-cases (p y)) [
    | inl e ↦ elim (rw e at m) [ inl k ↦ rw k e | inr k ↦ select-true p xs x k ]
    | inr e ↦ select-true p xs x (rw e at m)
  ]

  pub take-Has : (n : ℕ) (xs : List A) (x : A) → Has x (take n xs) → Has x xs
  take-Has zero xs x m = absurd m
  take-Has (suc n) [] x m = absurd m
  take-Has (suc n) (y ∷ xs) x (inl e) = inl e
  take-Has (suc n) (y ∷ xs) x (inr m) = inr (take-Has n xs x m)

  pub drop-Has : (n : ℕ) (xs : List A) (x : A) → Has x (drop n xs) → Has x xs
  drop-Has zero xs x m = m
  drop-Has (suc n) [] x m = absurd m
  drop-Has (suc n) (y ∷ xs) x m = inr (drop-Has n xs x m)
