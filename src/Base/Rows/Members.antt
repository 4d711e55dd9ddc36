-- ===== src/Base/Rows/Members.antt =====
-- Membership, searches and universal statements on lists of rows.
use parcel_delivery_api.Base.Tests.{Bool-cases}
use parcel_delivery_api.Base.Rows.{Has, All, first, none_of}
use mathlib.Core.Path.{◌≡◌, refl, ap}
use mathlib.Core.Logic.{inl, inr}
use mathlib.Core.Bool.{Bool, true, false}
use mathlib.Core.Option.{none, some}
use mathlib.Core.List.{map, List, [], ◌∷◌, ◌++◌}
use native.Mathlib.Omega.{arith}

module _ {A : Type 0} where
  pub first-Has : (p : A → Bool) (xs : List A) (x : A) → first p xs ≡ some x → Has x xs
  first-Has p [] x h = cc
  first-Has p (y ∷ xs) x h = elim (Bool-cases (p y)) [
    | inl e ↦ inl (ground arith)
    | inr e ↦ inr (first-Has p xs x (ground arith))
  ]

  pub first-true : (p : A → Bool) (xs : List A) (x : A) → first p xs ≡ some x → p x ≡ true
  first-true p [] x h = cc
  first-true p (y ∷ xs) x h = ground (arith, first-true p xs x)

  pub none_of-first : (p : A → Bool) (xs : List A) → first p xs ≡ none → none_of p xs ≡ true
  none_of-first p [] h = refl
  none_of-first p (y ∷ xs) h = ground (arith, none_of-first p xs)

  pub first-none_of : (p : A → Bool) (xs : List A) → none_of p xs ≡ true → first p xs ≡ none
  first-none_of p [] h = refl
  first-none_of p (y ∷ xs) h = ground (arith, first-none_of p xs)

  pub All-Has : (P : A → Type 0) (xs : List A) (x : A) → All P xs → Has x xs → P x
  All-Has P [] x a h = absurd h
  All-Has P (y ∷ xs) x a (inl e) = rw e (a.0)
  All-Has P (y ∷ xs) x a (inr h) = All-Has P xs x a.1 h

  -- What holds of each member holds of all rows.
  pub All-of_Has : (P : A → Type 0) (xs : List A) → ((x : A) → Has x xs → P x) → All P xs
  All-of_Has P [] h = tt
  All-of_Has P (y ∷ xs) h = (h y (inl refl), All-of_Has P xs (λ x m. h x (inr m)))

  pub All-map : (P Q : A → Type 0) (xs : List A) → ((x : A) → P x → Q x) → All P xs → All Q xs
  All-map P Q [] f a = tt
  All-map P Q (y ∷ xs) f a = (f y a.0, All-map P Q xs f a.1)

  pub All-append_cons :
      (P : A → Type 0) (front back : List A) (r : A)
      → P r
      → All P (front ++ back)
      → All P (front ++ (r ∷ back))
  All-append_cons P [] back r h a = (h, a)
  All-append_cons P (x ∷ front) back r h a = (a.0, All-append_cons P front back r h a.1)

  pub Has-append_cons : (front back : List A) (r : A) → Has r (front ++ (r ∷ back))
  Has-append_cons [] back r = inl refl
  Has-append_cons (x ∷ front) back r = inr (Has-append_cons front back r)

  pub none_of-append_cons :
      (p : A → Bool) (front back : List A) (r : A)
      → p r ≡ false
      → none_of p (front ++ back) ≡ true
      → none_of p (front ++ (r ∷ back)) ≡ true
  none_of-append_cons p [] back r h a = ground arith
  none_of-append_cons p (x ∷ front) back r h a =
      ground (arith, none_of-append_cons p front back r h)

  -- A row that alone satisfies the test is the one that a search finds.
  pub first-append_cons :
      (p : A → Bool) (front back : List A) (r : A)
      → p r ≡ true
      → none_of p (front ++ back) ≡ true
      → first p (front ++ (r ∷ back)) ≡ some r
  first-append_cons p [] back r h a = ground arith
  first-append_cons p (x ∷ front) back r h a = ground (arith, first-append_cons p front back r h)

  -- A row that does not satisfy the test is not seen by a search.
  pub first-append_cons_skip :
      (p : A → Bool) (front back : List A) (r : A)
      → p r ≡ false
      → first p (front ++ (r ∷ back)) ≡ first p (front ++ back)
  first-append_cons_skip p [] back r h = ground arith
  first-append_cons_skip p (x ∷ front) back r h =
      ground (arith, first-append_cons_skip p front back r h)

  pub Has-none_of :
      (p : A → Bool) (xs : List A) (x : A) → Has x xs → p x ≡ true → none_of p xs ≡ false
  Has-none_of p [] x m h = absurd m
  Has-none_of p (y ∷ xs) x (inl e) h = ground (arith, ap p e)
  Has-none_of p (y ∷ xs) x (inr m) h = ground (arith, Has-none_of p xs x m h)

  pub none_of-append_cons_keep :
      (p : A → Bool) (front back : List A) (r : A)
      → none_of p (front ++ back) ≡ false
      → none_of p (front ++ (r ∷ back)) ≡ false
  none_of-append_cons_keep p [] back r h = ground arith
  none_of-append_cons_keep p (x ∷ front) back r h =
      ground (arith, none_of-append_cons_keep p front back r)

module _ {A B : Type 0} where
  pub Has-map : (f : A → B) (xs : List A) (x : A) → Has x xs → Has (f x) (map f xs)
  Has-map f [] x h = absurd h
  Has-map f (y ∷ xs) x (inl e) = inl (ap f e)
  Has-map f (y ∷ xs) x (inr h) = inr (Has-map f xs x h)
