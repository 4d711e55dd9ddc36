-- ===== src/Base/Rows/Bag.antt =====
-- Rows up to order: two lists are the same bag when each test counts as many rows in both.
use parcel_delivery_api.Base.Tests.{if◌then◌else◌}
use parcel_delivery_api.Base.Rows.{Has, count, rewrite}
use parcel_delivery_api.Base.Rows.Counts.{Has-count}
use Prim.Native.Nat.{ℕ, ◌+◌, ◌≤◌}
use mathlib.Core.Path.{◌≡◌, refl, ◌∙◌, sym}
use mathlib.Core.Bool.{Bool, true}
use mathlib.Core.List.{List, [], ◌∷◌}
use mathlib.Core.Quot
use mathlib.Core.Quot.{Quot, Quot-set}
use native.Mathlib.Nat.{ℕ_set}
use native.Mathlib.Omega.{arith}

module _ {A : Type 0} where
  abbrev pub SameRows : List A → List A → Type 0
  SameRows xs ys = (p : A → Bool) → count p xs ≡ count p ys

module _ (A : Type 0) where
  abbrev pub Bag : Type 0
  Bag = Quot (SameRows {A = A})

module _ {A : Type 0} where
  abbrev pub bag_of : List A → Bag A
  bag_of = Quot.mk

  -- How many rows satisfy the test.
  unfoldable pub units : (A → Bool) → Bag A → ℕ
  units p = Quot.lift ℕ_set (count p) (λ xs ys h. h p)

  SameRows-cons : (x : A) (xs ys : List A) → SameRows xs ys → SameRows (x ∷ xs) (x ∷ ys)
  SameRows-cons x xs ys h p = ground (arith, h p)

  pub put : A → Bag A → Bag A
  put x =
      Quot.lift Quot-set (λ xs. bag_of (x ∷ xs)) (λ xs ys h. Quot.sound (SameRows-cons x xs ys h))

  -- The test that a row meets after the rewriting.
  abbrev pub after : (A → Bool) → (A → A) → (A → Bool) → A → Bool
  after p f q x = q (if p x then f x else x)

  count-rewrite :
      (q p : A → Bool) (f : A → A) (xs : List A) → count q (rewrite p f xs) ≡ count (after p f q) xs
  count-rewrite q p f [] = refl
  count-rewrite q p f (x ∷ xs) = rw (count-rewrite q p f xs) refl

  SameRows-rewrite :
      (p : A → Bool) (f : A → A) (xs ys : List A)
      → SameRows xs ys
      → SameRows (rewrite p f xs) (rewrite p f ys)
  SameRows-rewrite p f xs ys h q =
      count-rewrite q p f xs ∙ h (after p f q) ∙ sym (count-rewrite q p f ys)

  pub change : (A → Bool) → (A → A) → Bag A → Bag A
  change p f =
      Quot.lift Quot-set (λ xs. bag_of (rewrite p f xs))
        (λ xs ys h. Quot.sound (SameRows-rewrite p f xs ys h))

  pub units-put :
      (q : A → Bool) (x : A) (b : Bag A) → units q (put x b) ≡ (if q x then 1 else 0) + units q b
  unfolding units put
  units-put q x = Quot.ind (λ b. ℕ_set _ _) (λ xs. ground arith)

  pub units-change :
      (q p : A → Bool) (f : A → A) (b : Bag A) → units q (change p f b) ≡ units (after p f q) b
  unfolding units change
  units-change q p f = Quot.ind (λ b. ℕ_set _ _) (λ xs. count-rewrite q p f xs)

  pub put-bag_of : (x : A) (xs : List A) → put x (bag_of xs) ≡ bag_of (x ∷ xs)
  unfolding put
  put-bag_of x xs = refl

  pub change-bag_of :
      (p : A → Bool) (f : A → A) (xs : List A) → change p f (bag_of xs) ≡ bag_of (rewrite p f xs)
  unfolding change
  change-bag_of p f xs = refl

  -- The row is in the bag.
  abbrev pub IsIn : A → Bag A → Type 0
  IsIn x b = (p : A → Bool) → p x ≡ true → 1 ≤ units p b

  pub IsIn-bag_of : (x : A) (xs : List A) → Has x xs → IsIn x (bag_of xs)
  unfolding units
  IsIn-bag_of x xs m p h = Has-count p xs x m h
