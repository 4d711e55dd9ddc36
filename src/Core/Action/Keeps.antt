-- ===== src/Core/Action/Keeps.antt =====
-- Predicates on the state that an action keeps when it runs from a given state, whether it returns
-- or raises: one rule for each way to build an action.
use parcel_delivery_api.Base.{◌≡◌, refl, Bool, true, false, Option, none, some, if◌then◌else◌}
use parcel_delivery_api.Core.Exceptions.{Failure}
use parcel_delivery_api.Core.Action.{Action, Result, ok, raised, commit, raise, ◌>>=◌}

module _ {S : Type 0} (P : S → Type 0) where
  pub record Keeps {A : Type 0} (m : Action S A) (s : S) : Type 0 where
    pub at : P s → P (m s).1

  -- What a write leaves, if it can be made, satisfies the predicate.
  abbrev pub Written : Option S → Type 0
  Written none = Unit
  Written (some s) = P s

  module _ {A : Type 0} where
    pub Keeps-pure : (r : Result A) (s : S) → Keeps (λ s. (r, s)) s
    Keeps-pure r s = record { at = λ h. h }

    pub Keeps-raise : (e : Failure) (s : S) → Keeps (raise {A = A} e) s
    Keeps-raise e s = record { at = λ h. h }

    pub Keeps-if :
        (b : Bool) (m n : Action S A) (s : S)
        → (b ≡ true → Keeps m s)
        → (b ≡ false → Keeps n s)
        → Keeps (if b then m else n) s
    Keeps-if true m n s km kn = km refl
    Keeps-if false m n s km kn = kn refl

  committed :
      (s : S) (e : Failure) (o : Option S)
      → P s
      → Written o
      → P (
          let r : Result (Unit {0}) × S = elim o [ none ↦ (raised e, s) | some s' ↦ (ok tt, s') ] in
          r.1)
  committed s e none h w = h
  committed s e (some s') h w = w

  pub Keeps-commit :
      (write : S → Option S) (e : Failure) (s : S)
      → (P s → Written (write s))
      → Keeps (commit write e) s
  Keeps-commit write e s h = record { at = λ p. committed s e (write s) p (h p) }

  module _ {A B : Type 0} where
    continued :
        (f : A → Action S B) (r : Result A) (s : S)
        → ((a : A) → Keeps (f a) s)
        → P s
        → P (let q : Result B × S = elim r [ ok a ↦ f a s | raised e ↦ (raised e, s) ] in q.1)
    continued f (ok a) s h p = (h a).at p
    continued f (raised e) s h p = p

    pub Keeps-bind :
        (m : Action S A) (f : A → Action S B) (s : S)
        → Keeps m s
        → ((a : A) → Keeps (f a) (m s).1)
        → Keeps (m >>= f) s
    Keeps-bind m f s km kf = record { at = λ p. continued f (m s).0 (m s).1 kf (km.at p) }
