-- ===== src/Base/Rows/Counts.antt =====
-- How many rows satisfy a test, as rows are added and rewritten.
use parcel_delivery_api.Base.Tests.{if◌then◌else◌}
use parcel_delivery_api.Base.Rows.{Has, count, none_of, rewrite}
use Prim.Native.Nat.{◌+◌, ◌≤◌, ◌<◌}
use mathlib.Core.Path.{◌≡◌, refl, ap}
use mathlib.Core.Logic.{inl, inr}
use mathlib.Core.Bool.{Bool, true, false}
use mathlib.Core.List.{List, [], ◌∷◌, ◌++◌}
use native.Mathlib.Omega.{arith}

module _ {A : Type 0} where
  pub count-append_cons :
      (p : A → Bool) (front back : List A) (r : A)
      → count p (front ++ (r ∷ back)) ≡ (if p r then 1 else 0) + count p (front ++ back)
  count-append_cons p [] back r = ground arith
  count-append_cons p (x ∷ front) back r = ground (arith, count-append_cons p front back r)

  pub Has-count : (p : A → Bool) (xs : List A) (x : A) → Has x xs → p x ≡ true → 0 < count p xs
  Has-count p [] x m h = absurd m
  Has-count p (y ∷ xs) x (inl e) h = ground (arith, ap p e)
  Has-count p (y ∷ xs) x (inr m) h = ground (arith, Has-count p xs x m h)

  -- A rewriting that makes no row satisfy the test adds none to the count.
  pub count-rewrite-le :
      (q p : A → Bool) (f : A → A) (xs : List A)
      → ((x : A) → q (f x) ≡ true → q x ≡ true)
      → count q (rewrite p f xs) ≤ count q xs
  count-rewrite-le q p f [] h = omega arith
  count-rewrite-le q p f (x ∷ xs) h = ground (arith, count-rewrite-le q p f xs h, h x)

  -- Where one row at most satisfies the test, rewriting that row leaves none.
  pub count-rewrite_only :
      (q p : A → Bool) (f : A → A) (xs : List A) (x : A)
      → ((y : A) → q (f y) ≡ false)
      → Has x xs
      → q x ≡ true
      → p x ≡ true
      → count q xs ≤ 1
      → count q (rewrite p f xs) ≡ 0
  count-rewrite_only q p f [] x h m e e' le = absurd m
  count-rewrite_only q p f (y ∷ xs) x h (inl m) e e' le =
      ground (arith, ap p m, ap q m, h y, count-rewrite-le q p f xs (λ z k. ground (arith, h z, k)))
  count-rewrite_only q p f (y ∷ xs) x h (inr m) e e' le =
      ground (arith, h y, Has-count q xs x m e, count-rewrite_only q p f xs x h m e e')

  pub none_of-count :
      (p q : A → Bool) (xs : List A)
      → ((x : A) → q x ≡ true → p x ≡ true)
      → none_of p xs ≡ true
      → count q xs ≡ 0
  none_of-count p q [] h n = refl
  none_of-count p q (x ∷ xs) h n = ground (arith, none_of-count p q xs h, h x)
