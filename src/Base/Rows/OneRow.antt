-- ===== src/Base/Rows/OneRow.antt =====
-- The rewriting of the one row that has a given key.
use parcel_delivery_api.Base.Tests.{Bool-cases}
use parcel_delivery_api.Base.Lists.{take}
use parcel_delivery_api.Base.Rows.{Has, select, rewrite, none_of, count, Distinct}
use parcel_delivery_api.Base.Rows.Counts.{none_of-count}
use parcel_delivery_api.Base.Rows.Keys.{key-ne_of_member}
use Prim.Native.Nat.{ℕ, zero, suc}
use Prim.Native.String.{String}
use text.Mathlib.Text.{◌==◌}
use text.Mathlib.TextPositions.{eq_refl}
use mathlib.Core.Path.{◌≡◌, refl, sym, ap}
use mathlib.Core.Logic.{inl, inr}
use mathlib.Core.Bool.{Bool, true, false, ◌&&◌}
use mathlib.Core.List.{List, [], ◌∷◌, map}
use native.Mathlib.Omega.{arith}

module _ {A : Type 0} where
  pub rewrite-none_of :
      (p : A → Bool) (f : A → A) (xs : List A) → none_of p xs ≡ true → rewrite p f xs ≡ xs
  rewrite-none_of p f [] h = refl
  rewrite-none_of p f (x ∷ xs) h =
      let ih = rewrite-none_of p f xs (ground arith) in
      let e : p x ≡ false = ground arith in rw (e, ih) refl

  pub Has-rewrite :
      (p : A → Bool) (f : A → A) (xs : List A) (x : A)
      → Has x xs
      → p x ≡ false
      → Has x (rewrite p f xs)
  Has-rewrite p f [] x m h = absurd m
  Has-rewrite p f (y ∷ xs) x (inl e) h = let e' : p y ≡ false = rw e at h in rw e' (inl e)
  Has-rewrite p f (y ∷ xs) x (inr m) h = inr (Has-rewrite p f xs x m h)

  pub none_of-select :
      (p q : A → Bool) (xs : List A) → none_of p xs ≡ true → none_of p (select q xs) ≡ true
  none_of-select p q [] h = refl
  none_of-select p q (x ∷ xs) h = ground (arith, none_of-select p q xs)

  pub none_of-take :
      (p : A → Bool) (n : ℕ) (xs : List A) → none_of p xs ≡ true → none_of p (take n xs) ≡ true
  none_of-take p zero xs h = refl
  none_of-take p (suc n) [] h = refl
  none_of-take p (suc n) (x ∷ xs) h = ground (arith, none_of-take p n xs)

  -- With none selected, a map that changes only what is selected changes nothing.
  pub map-none :
      (q : A → Bool) (g : A → A) (xs : List A)
      → ((x : A) → q x ≡ false → g x ≡ x)
      → count q xs ≡ 0
      → map g xs ≡ xs
  map-none q g [] h c = refl
  map-none q g (x ∷ xs) h c = elim (Bool-cases (q x)) [
    | inl e ↦ absurd (ground arith)
    | inr e ↦ rw (h x e, map-none q g xs h (ground arith)) refl
  ]

module _ {A : Type 0} (key : A → String) where
  pub Distinct-select : (q : A → Bool) (xs : List A) → Distinct key xs → Distinct key (select q xs)
  Distinct-select q [] d = tt
  Distinct-select q (x ∷ xs) d = elim (Bool-cases (q x)) [
    | inl e ↦ rw e (none_of-select (λ y. key y == key x) q xs d.0, Distinct-select q xs d.1)
    | inr e ↦ rw e (Distinct-select q xs d.1)
  ]

  pub Distinct-take : (n : ℕ) (xs : List A) → Distinct key xs → Distinct key (take n xs)
  Distinct-take zero xs d = tt
  Distinct-take (suc n) [] d = tt
  Distinct-take (suc n) (x ∷ xs) d =
      (none_of-take (λ y. key y == key x) n xs d.0, Distinct-take n xs d.1)

  abbrev pub with_key_of : A → A → Bool
  with_key_of p y = key y == key p

  other_key :
      (y p : A) (xs : List A)
      → none_of (with_key_of y) xs ≡ true
      → Has p xs
      → (key y == key p) ≡ false
  other_key y p xs h m = elim (Bool-cases (key y == key p)) [
    | inl e ↦ absurd (key-ne_of_member key xs y p h m e)
    | inr e ↦ e
  ]

  -- A map that sees no difference in the rewritten row sees none in the rows.
  pub map-rewrite_one :
      (f g : A → A) (xs : List A) (p : A)
      → Distinct key xs
      → Has p xs
      → g (f p) ≡ g p
      → map g (rewrite (with_key_of p) f xs) ≡ map g xs
  map-rewrite_one f g [] p d m e = refl
  map-rewrite_one f g (y ∷ xs) p d (inl h) e =
      let none = rw (sym h) at d.0 in
      rw (sym h, eq_refl (key p), rewrite-none_of (with_key_of p) f xs none, e) refl
  map-rewrite_one f g (y ∷ xs) p d (inr m) e =
      rw (other_key y p xs d.0 m, map-rewrite_one f g xs p d.1 m e) refl

  -- Where the rewriting takes the row out of the count, the count falls by one.
  pub count-rewrite_one :
      (f : A → A) (q : A → Bool) (xs : List A) (p : A)
      → Distinct key xs
      → Has p xs
      → q p ≡ true
      → q (f p) ≡ false
      → suc (count q (rewrite (with_key_of p) f xs)) ≡ count q xs
  count-rewrite_one f q [] p d m e e' = absurd m
  count-rewrite_one f q (y ∷ xs) p d (inl h) e e' =
      let none = rw (sym h) at d.0 in
      rw (sym h, eq_refl (key p), rewrite-none_of (with_key_of p) f xs none, e', e) refl
  count-rewrite_one f q (y ∷ xs) p d (inr m) e e' =
      let ih = count-rewrite_one f q xs p d.1 m e e' in
      rw (other_key y p xs d.0 m) (ground (arith, ih))

  -- Among distinct keys, no row has the key of a member and passes a test that the member fails.
  pub count-key_other :
      (q : A → Bool) (xs : List A) (p : A)
      → Distinct key xs
      → Has p xs
      → q p ≡ false
      → count (λ y. with_key_of p y && q y) xs ≡ 0
  count-key_other q [] p d m e = absurd m
  count-key_other q (y ∷ xs) p d (inl h) e =
      let none : none_of (with_key_of p) xs ≡ true = rw (sym h) at d.0 in
      let rest =
        none_of-count (with_key_of p) (λ z. with_key_of p z && q z) xs (λ z k. ground arith) none in
      ground (arith, rest, ap q h)
  count-key_other q (y ∷ xs) p d (inr m) e =
      ground (arith, other_key y p xs d.0 m, count-key_other q xs p d.1 m e)
