-- ===== src/Core/Decimal.antt =====
-- Python's `decimal.Decimal` in the default context of 28 digits, rounding half to even: a sign, a
-- coefficient, and the number of decimal places. A negative number of places is not represented:
-- such a value has its zeros in the coefficient, and is numerically the same.
use parcel_delivery_api.Base.{
  ℕ, zero, suc, ◌+◌, ◌-◌, ◌*◌, ◌/◌, ◌%◌, ◌^◌, Bool, false, ◌||◌, ◌&&◌, ltb, leb, if◌then◌else◌,
}
use mathlib.Core.Bool.{xor}

pub record Decimal : Type 0 where
  pub negative : Bool
  pub coefficient : ℕ
  pub places : ℕ

abbrev pub decimal : ℕ → ℕ → Decimal
decimal n p = record { negative = false; coefficient = n; places = p }

-- d <= 0
unfoldable pub le_zero : Decimal → Bool
le_zero d = d.negative || leb d.coefficient 0

abbrev pub context_limit : ℕ
context_limit = 10 ^ 28

-- How many digits of the coefficient are past the precision. Each round divides by ten, and no
-- product of the program has more than a hundred digits.
excess : ℕ → ℕ → ℕ
excess zero n = 0
excess (suc fuel) n =
    let more = suc (excess fuel (n / 10)) in if ltb n context_limit then 0 else more

-- n / d, rounded half to even
div_half_even : ℕ → ℕ → ℕ
div_half_even n d =
    let q = n / d in
    let r = n % d in if ltb (2 * r) d then q else if ltb d (2 * r) then q + 1 else q + q % 2

-- The value of `n` units in the last of `p` places, rounded to the precision of the context.
unfoldable pub in_context : Bool → ℕ → ℕ → Decimal
unfolding excess div_half_even
in_context s n p =
    if ltb n context_limit
    then record { negative = s; coefficient = n; places = p }
    else let k = excess 100 n in
      let m = div_half_even n (10 ^ k) in
      if leb k p
      then record { negative = s; coefficient = m; places = p - k }
      else record { negative = s; coefficient = m * 10 ^ (k - p); places = 0 }

infixl 70 ◌*ᴰ◌
infixl 65 ◌+ᴰ◌
unfoldable pub ◌*ᴰ◌ : Decimal → Decimal → Decimal
unfolding in_context
a *ᴰ b =
    in_context (xor a.negative b.negative) (a.coefficient * b.coefficient) (a.places + b.places)

-- The coefficient at a number of places that is at least the decimal's own.
abbrev pub scaled : Decimal → ℕ → ℕ
scaled d p = d.coefficient * 10 ^ (p - d.places)

abbrev max_places : Decimal → Decimal → ℕ
max_places a b = if leb a.places b.places then b.places else a.places

add_signed : Bool → Bool → ℕ → ℕ → ℕ → Decimal
unfolding in_context
add_signed s t m n p =
    if xor s t
    then (if leb n m then in_context s (m - n) p else in_context t (n - m) p)
    else in_context s (m + n) p

unfoldable pub ◌+ᴰ◌ : Decimal → Decimal → Decimal
unfolding add_signed
a +ᴰ b = let p = max_places a b in add_signed a.negative b.negative (scaled a p) (scaled b p) p

-- d < 0
unfoldable pub negative_value : Decimal → Bool
negative_value d = d.negative && ltb 0 d.coefficient

-- The coefficient at a number of places, rounded half away from zero.
abbrev pub rounded : Decimal → ℕ → ℕ
rounded d p = (2 * (d.coefficient * 10 ^ p) + 10 ^ d.places) / (2 * 10 ^ d.places)

-- The value with that many places, which has no negative zero.
abbrev pub at_places : Decimal → ℕ → Decimal
at_places d p = record {
  negative = d.negative && ltb 0 (rounded d p);
  coefficient = rounded d p;
  places = p;
}
