-- ===== src/Base/Rows/Sorting.antt =====
-- Rows in ascending order, and the sort of the engine in Db/Memory.
use Prim.Native.Nat.{ℕ, zero, suc}
use mathlib.Core.Path.{◌≡◌, refl}
use mathlib.Core.Logic.{◌↔◌, inl, inr}
use mathlib.Core.Bool.{Bool, true, false}
use mathlib.Core.List.{List, [], ◌∷◌}
use native.Mathlib.Omega.{arith}
use parcel_delivery_api.Base.Tests.{Bool-cases, if◌then◌else◌}
use parcel_delivery_api.Base.Lists.{length, take, drop}
use parcel_delivery_api.Base.Rows.{Has}

module _ {A : Type 0} (le : A → A → Bool) where
  -- Each row is at most the one after it.
  abbrev pub Ascending : List A → Type 0
  Ascending [] = Unit
  Ascending (x ∷ []) = Unit
  Ascending (x ∷ (y ∷ xs)) = (le x y ≡ true) × Ascending (y ∷ xs)

  tail-Ascending : (x : A) (xs : List A) → Ascending (x ∷ xs) → Ascending xs
  tail-Ascending x [] a = tt
  tail-Ascending x (y ∷ xs) a = a.1

  pub drop-Ascending : (n : ℕ) (xs : List A) → Ascending xs → Ascending (drop n xs)
  drop-Ascending zero xs a = a
  drop-Ascending (suc n) [] a = tt
  drop-Ascending (suc n) (x ∷ xs) a = drop-Ascending n xs (tail-Ascending x xs a)

  pub take-Ascending : (n : ℕ) (xs : List A) → Ascending xs → Ascending (take n xs)
  take-Ascending zero xs a = tt
  take-Ascending (suc n) [] a = tt
  take-Ascending (suc zero) (x ∷ xs) a = tt
  take-Ascending (suc (suc n)) (x ∷ []) a = tt
  take-Ascending (suc (suc n)) (x ∷ (y ∷ xs)) a = (a.0, take-Ascending (suc n) (y ∷ xs) a.1)

  abbrev pub insert : A → List A → List A
  insert x [] = x ∷ []
  insert x (y ∷ ys) = let rest = insert x ys in if le x y then x ∷ (y ∷ ys) else y ∷ rest

  abbrev pub sort : List A → List A
  sort [] = []
  sort (x ∷ xs) = insert x (sort xs)

  length-insert : (x : A) (xs : List A) → length (insert x xs) ≡ suc (length xs)
  length-insert x [] = refl
  length-insert x (y ∷ ys) = ground (arith, length-insert x ys)

  pub length-sort : (xs : List A) → length (sort xs) ≡ length xs
  length-sort [] = refl
  length-sort (x ∷ xs) = rw (length-insert x (sort xs), length-sort xs) refl

  insert-Has : (x : A) (xs : List A) (r : A) → Has r (insert x xs) ↔ Has r (x ∷ xs)
  insert-Has x [] r = (λ h. h, λ h. h)
  insert-Has x (y ∷ ys) r = elim (Bool-cases (le x y)) [
    | inl e ↦ rw e (λ h. h, λ h. h)
    | inr e ↦
        let (to, from) = insert-Has x ys r in
        rw e (
          λ h. elim h [
            | inl k ↦ inr (inl k)
            | inr k ↦ elim (to k) [ inl k ↦ inl k | inr k ↦ inr (inr k) ]
          ],
          λ h. elim h [
            | inl k ↦ inr (from (inl k))
            | inr k ↦ elim k [ inl k ↦ inl k | inr k ↦ inr (from (inr k)) ]
          ],
        )
  ]

  pub sort-Has : (xs : List A) (r : A) → Has r (sort xs) ↔ Has r xs
  sort-Has [] r = (λ h. h, λ h. h)
  sort-Has (x ∷ xs) r =
      let (to, from) = insert-Has x (sort xs) r in
      let (to', from') = sort-Has xs r in
      (
        λ h. elim (to h) [ inl k ↦ inl k | inr k ↦ inr (to' k) ],
        λ h. from (elim h [ inl k ↦ inl k | inr k ↦ inr (from' k) ]),
      )

  module _ (total : (x y : A) → le x y ≡ false → le y x ≡ true) where
    insert-after :
        (y x : A) (ys : List A) → le y x ≡ true → Ascending (y ∷ ys) → Ascending (y ∷ insert x ys)
    insert-after y x [] h a = (h, tt)
    insert-after y x (z ∷ zs) h a = elim (Bool-cases (le x z)) [
      | inl e ↦ rw e (h, (e, a.1))
      | inr e ↦ rw e (a.0, insert-after z x zs (total x z e) a.1)
    ]

    insert-Ascending : (x : A) (ys : List A) → Ascending ys → Ascending (insert x ys)
    insert-Ascending x [] a = tt
    insert-Ascending x (y ∷ ys) a = elim (Bool-cases (le x y)) [
      | inl e ↦ rw e (e, a)
      | inr e ↦ rw e (insert-after y x ys (total x y e) a)
    ]

    pub sort-Ascending : (xs : List A) → Ascending (sort xs)
    sort-Ascending [] = tt
    sort-Ascending (x ∷ xs) = insert-Ascending x (sort xs) (sort-Ascending xs)
