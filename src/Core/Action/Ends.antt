-- ===== src/Core/Action/Ends.antt =====
-- What an action returns and what it raises, from a given state: one rule for each way to build an
-- action.
use parcel_delivery_api.Base.{◌≡◌, refl, Bool, true, false, Option, none, some, if◌then◌else◌}
use parcel_delivery_api.Core.Exceptions.{Failure}
use parcel_delivery_api.Core.Action.{Action, Result, ok, raised, commit, ◌>>=◌}

-- `P` holds of a value, `E` of a failure.
abbrev pub Post {ℓ} : {A : Type ℓ} → (A → Type 0) → (Failure → Type 0) → Result A → Type 0
Post P E (ok a) = P a
Post P E (raised e) = E e

module _ {B : Type 0} (P : B → Type 0) (E : Failure → Type 0) where
  pub Post-if :
      (b : Bool) (x y : Result B) → Post P E x → Post P E y → Post P E (if b then x else y)
  Post-if true x y hx hy = hx
  Post-if false x y hx hy = hy

  pub Post-elim :
      {A : Type 0} (o : Option A) (x : Result B) (f : A → Result B)
      → Post P E x
      → ((a : A) → Post P E (f a))
      → Post P E (let r : Result B = elim o [ none ↦ x | some a ↦ f a ] in r)
  Post-elim none x f hx hf = hx
  Post-elim (some a) x f hx hf = hf a

  pub Post-chain :
      {A : Type 0} (r : Result A) (f : A → Result B)
      → Post (λ _. Unit) E r
      → ((a : A) → Post P E (f a))
      → Post P E (let q : Result B = elim r [ ok a ↦ f a | raised e ↦ raised e ] in q)
  Post-chain (ok a) f hr hf = hf a
  Post-chain (raised e) f hr hf = hr

-- A value, or the failure that stands for its absence
pub Post-option :
    {A : Type 0} (E : Failure → Type 0) (e : Failure) (o : Option A)
    → E e
    → Post (λ _. Unit) E (let r : Result A = elim o [ none ↦ raised e | some a ↦ ok a ] in r)
Post-option E e none h = h
Post-option E e (some a) h = tt

module _ {S : Type 0} (E : Failure → Type 0) where
  pub record Ends {A : Type 0} (P : A → Type 0) (m : Action S A) (s : S) : Type 0 where
    pub at : Post P E (m s).0

  abbrev pub Fails : {A : Type 0} → Action S A → S → Type 0
  Fails m s = Ends (λ _. Unit) m s

  module _ {A : Type 0} where
    pub Ends-pure : (P : A → Type 0) (r : Result A) (s : S) → Post P E r → Ends P (λ s. (r, s)) s
    Ends-pure P r s h = record { at = h }

    pub Ends-if :
        (P : A → Type 0) (b : Bool) (m n : Action S A) (s : S)
        → (b ≡ true → Ends P m s)
        → (b ≡ false → Ends P n s)
        → Ends P (if b then m else n) s
    Ends-if P true m n s km kn = km refl
    Ends-if P false m n s km kn = kn refl

  committed :
      (s : S) (e : Failure) (o : Option S)
      → E e
      → Post {A = Unit {0}}
          (λ _. Unit)
          E
          (let r : Result (Unit {0}) × S = elim o [
            | none ↦ (raised e, s)
            | some s' ↦ (ok tt, s')
          ] in
            r.0)
  committed s e none h = h
  committed s e (some s') h = tt

  pub Ends-commit : (write : S → Option S) (e : Failure) (s : S) → E e → Fails (commit write e) s
  Ends-commit write e s h = record { at = committed s e (write s) h }

  module _ {A B : Type 0} where
    continued :
        (P : B → Type 0) (f : A → Action S B) (r : Result A) (s : S)
        → ((a : A) → Ends P (f a) s)
        → Post (λ _. Unit) E r
        → Post P E
            (let q : Result B × S = elim r [ ok a ↦ f a s | raised e ↦ (raised e, s) ] in q.0)
    continued P f (ok a) s h p = (h a).at
    continued P f (raised e) s h p = p

    pub Ends-bind :
        (P : B → Type 0) (m : Action S A) (f : A → Action S B) (s : S)
        → Fails m s
        → ((a : A) → Ends P (f a) (m s).1)
        → Ends P (m >>= f) s
    Ends-bind P m f s km kf = record { at = continued P f (m s).0 (m s).1 kf km.at }
