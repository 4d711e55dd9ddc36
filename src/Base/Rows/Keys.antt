-- ===== src/Base/Rows/Keys.antt =====
-- Rows with distinct keys.
use parcel_delivery_api.Base.Tests.{if◌then◌else◌, Bool-cases}
use parcel_delivery_api.Base.Rows.{Has, first, none_of, rewrite, Distinct}
use parcel_delivery_api.Base.Rows.Members.{none_of-append_cons}
use parcel_delivery_api.Base.Rows.Updates.{none_of-rewrite}
use Prim.Native.String.{String}
use text.Mathlib.Text.{◌==◌}
use text.Mathlib.TextEquality.{eq_iff}
use text.Mathlib.TextPositions.{eq_refl}
use mathlib.Core.Path.{◌≡◌, ap, ◌∙◌}
use mathlib.Core.Logic.{inl, inr}
use mathlib.Core.Bool.{Bool, true, false}
use mathlib.Core.Option.{some}
use mathlib.Core.List.{List, [], ◌∷◌, ◌++◌}
use native.Mathlib.Omega.{arith}

module _ {A : Type 0} (key : A → String) where
  none_of-append_cons_key :
      (front : List A) (back : List A) (x r : A)
      → none_of (λ y. key y == key x) (front ++ back) ≡ true
      → (key r == key x) ≡ false
      → none_of (λ y. key y == key x) (front ++ (r ∷ back)) ≡ true
  none_of-append_cons_key front back x r h e =
      none_of-append_cons (λ y. key y == key x) front back r e h

  key-ne_of_none_of :
      (front back : List A) (x r : A)
      → none_of (λ y. key y == key r) (x ∷ (front ++ back)) ≡ true
      → (key r == key x) ≡ false
  key-ne_of_none_of front back x r h =
      ground (arith, eq_iff (key r) (key x), eq_iff (key x) (key r))

  none_of-rewrite-key :
      (p : A → Bool) (f : A → A) (xs : List A)
      → ((x : A) → key (f x) ≡ key x)
      → (k k' : String) → k' ≡ k
      → none_of (λ y. key y == k) xs ≡ true
      → none_of (λ y. key y == k') (rewrite p f xs) ≡ true
  none_of-rewrite-key p f xs h k k' e d =
      rw e (none_of-rewrite p f (λ y. key y == k) xs (λ x. ap (λ t. t == k) (h x)) ∙ d)

  pub key-ne_of_member :
      (xs : List A) (y x : A)
      → none_of (λ z. key z == key y) xs ≡ true
      → Has x xs
      → (key y == key x) ≡ true
      → ⊥
  key-ne_of_member [] y x d h e = h
  key-ne_of_member (z ∷ xs) y x d (inl m) e =
      ground (arith, eq_refl (key x), eq_iff (key y) (key x), eq_iff (key z) (key y), ap key m)
  key-ne_of_member (z ∷ xs) y x d (inr h) e = key-ne_of_member xs y x (ground arith) h e

  -- A row with a new key may be added anywhere.
  pub Distinct-append_cons :
      (front back : List A) (r : A)
      → Distinct key (front ++ back)
      → none_of (λ y. key y == key r) (front ++ back) ≡ true
      → Distinct key (front ++ (r ∷ back))
  Distinct-append_cons [] back r d h = (h, d)
  Distinct-append_cons (x ∷ front) back r d h = (
    none_of-append_cons_key front back x r d.0 (key-ne_of_none_of front back x r h),
    Distinct-append_cons front back r d.1 (ground arith),
  )

  pub Distinct-rewrite :
      (p : A → Bool) (f : A → A) (xs : List A)
      → ((x : A) → key (f x) ≡ key x)
      → Distinct key xs
      → Distinct key (rewrite p f xs)
  Distinct-rewrite p f [] h d = tt
  Distinct-rewrite p f (x ∷ xs) h d = (
    none_of-rewrite-key p f xs h (key x) (key (if p x then f x else x)) (ground (arith, h x)) d.0,
    Distinct-rewrite p f xs h d.1,
  )

  -- Among distinct keys a search by the key of a member finds that member.
  pub first-Has-Distinct :
      (xs : List A) (x : A) → Distinct key xs → Has x xs → first (λ y. key y == key x) xs ≡ some x
  first-Has-Distinct [] x d h = absurd h
  first-Has-Distinct (y ∷ xs) x d (inl e) = rw (e, eq_refl)
  first-Has-Distinct (y ∷ xs) x d (inr h) =
      let ih = first-Has-Distinct xs x d.1 h in
      elim (Bool-cases (key y == key x)) [
        | inl e ↦ absurd (key-ne_of_member xs y x d.0 h e)
        | inr e ↦ rw e ih
      ]
