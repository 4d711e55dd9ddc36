-- ===== src/Base/Rows/Updates.antt =====
-- Rows that are rewritten in place.
use parcel_delivery_api.Base.Tests.{if◌then◌else◌, Bool-cases}
use parcel_delivery_api.Base.Rows.{All, first, none_of, rewrite}
use mathlib.Core.Path.{◌≡◌, refl}
use mathlib.Core.Logic.{inl, inr}
use mathlib.Core.Bool.{Bool, true, false}
use mathlib.Core.Option
use mathlib.Core.Option.{none, some}
use mathlib.Core.List.{List, [], ◌∷◌}
use native.Mathlib.Omega.{arith}

module _ {A : Type 0} (p : A → Bool) (f : A → A) where
  pub All-rewrite :
      (P Q : A → Type 0) (xs : List A)
      → ((x : A) → p x ≡ true → P x → Q (f x))
      → ((x : A) → p x ≡ false → P x → Q x)
      → All P xs
      → All Q (rewrite p f xs)
  All-rewrite P Q [] hit miss a = tt
  All-rewrite P Q (x ∷ xs) hit miss a = elim (Bool-cases (p x)) [
    | inl e ↦ (rw e (hit x e a.0), All-rewrite P Q xs hit miss a.1)
    | inr e ↦ (rw e (miss x e a.0), All-rewrite P Q xs hit miss a.1)
  ]

  -- A search by what the rewriting keeps finds the rewritten row.
  pub first-rewrite :
      (q : A → Bool) (xs : List A)
      → ((x : A) → q (f x) ≡ q x)
      → first q (rewrite p f xs) ≡ Option.map (λ x. if p x then f x else x) (first q xs)
  first-rewrite q [] h = refl
  first-rewrite q (x ∷ xs) h = ground (arith, first-rewrite q xs h, h x)

  pub none_of-rewrite :
      (q : A → Bool) (xs : List A)
      → ((x : A) → q (f x) ≡ q x)
      → none_of q (rewrite p f xs) ≡ none_of q xs
  none_of-rewrite q [] h = refl
  none_of-rewrite q (x ∷ xs) h = ground (arith, none_of-rewrite q xs h, h x)
