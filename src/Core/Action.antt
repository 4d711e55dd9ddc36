-- ===== src/Core/Action.antt =====
-- What a coroutine does to the state that it shares, and what it raises. What was committed before
-- a raise stays committed, so the state comes back beside the failure too.
pub mod Keeps
pub mod Ends
use parcel_delivery_api.Base.{◌≡◌, refl, ◌⊎◌, inl, inr, Bool, Option, none, some, if◌then◌else◌}
use parcel_delivery_api.Core.Exceptions.{Failure}

pub data Result {ℓ} (A : Type ℓ) : Type ℓ where
  ok : A → Result A
  raised : Failure → Result A

pub Result-cases {ℓ} :
    {A : Type ℓ} (r : Result A) → ((e : Failure) × (r ≡ raised e)) ⊎ ((a : A) × (r ≡ ok a))
Result-cases (raised e) = inl (e, refl)
Result-cases (ok a) = inr (a, refl)

abbrev pub Action : Type 0 → Type 0 → Type 0
Action S A = S → Result A × S

module _ {S A : Type 0} where
  abbrev pub pure : A → Action S A
  pure a s = (ok a, s)

  abbrev pub raise : Failure → Action S A
  raise e s = (raised e, s)

  abbrev pub lift : Result A → Action S A
  lift r s = (r, s)

  abbrev pub gets : (S → A) → Action S A
  gets f s = (ok (f s), s)

module _ {S : Type 0} where
  abbrev pub modify : (S → S) → Action S (Unit {0})
  modify f s = (ok tt, f s)

  -- A commit: all of its writes take effect, or it raises and none does.
  abbrev pub commit : (S → Option S) → Failure → Action S (Unit {0})
  commit write e s = elim (write s) [ none ↦ (raised e, s) | some s' ↦ (ok tt, s') ]

  abbrev pub raise_if : Bool → Failure → Action S (Unit {0})
  raise_if c e s = (if c then raised e else ok tt, s)

module _ {S A B : Type 0} where
  infixl 5 ◌>>=◌ ◌>>◌
  abbrev pub ◌>>=◌ : Action S A → (A → Action S B) → Action S B
  ◌>>=◌ m f s = let (r, s') = m s in elim r [ ok a ↦ f a s' | raised e ↦ (raised e, s') ]

  abbrev pub ◌>>◌ : Action S A → Action S B → Action S B
  m >> k = m >>= λ _. k
