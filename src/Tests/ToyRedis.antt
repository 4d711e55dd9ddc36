-- ===== src/Tests/ToyRedis.antt =====
-- A Redis that is a function of time, and a text form of decimals; they show that the laws of the two
-- interfaces can be met, and the witnesses of the tasks run on them.
use Prim.Native.Char.{Char, code}
use parcel_delivery_api.Base.{
  ℕ, zero, suc, ◌+◌, ◌≤◌, ◌<◌, ◌≡◌, refl, ap, String, Bool, true, false, Option, none, some, ◌==◌,
  ltb, leb, arith, eq_refl, eq-false_of_ne, if◌then◌else◌,
}
use parcel_delivery_api.Core.Decimal.{Decimal}
use parcel_delivery_api.Tasks.Redis.{Redis}
use parcel_delivery_api.Tasks.Rates.{DecimalText}

abbrev pub State : Type 0
State = ℕ → String → Option String

abbrev pub alive : String → Option ℕ → ℕ → ℕ → Option String
alive v none t t' = some v
alive v (some seconds) t t' = if ltb t' (t + seconds) then some v else none

abbrev pub put : String → String → Option ℕ → ℕ → State → State
put k v ex t s t' k' = if k == k' then alive v ex t t' else s t' k'

abbrev pub put_nx : String → String → ℕ → ℕ → State → Bool × State
put_nx k v seconds t s = elim (s t k) [
  | none ↦ (true, put k v (some seconds) t s)
  | some w ↦ (false, s)
]

abbrev pub remove : String → ℕ → State → State
remove k t s t' k' = if k == k' then none else s t' k'

pub put-get : (k v : String) (t t' : ℕ) (s : State) → t ≤ t' → put k v none t s t' k ≡ some v
put-get k v t t' s le = ground (arith, eq_refl k)

pub put-get_within :
    (k v : String) (seconds t t' : ℕ) (s : State)
    → t ≤ t'
    → t' < t + seconds
    → put k v (some seconds) t s t' k ≡ some v
put-get_within k v seconds t t' s le lt = ground (arith, eq_refl k)

pub put-get_past :
    (k v : String) (seconds t t' : ℕ) (s : State)
    → t + seconds ≤ t'
    → put k v (some seconds) t s t' k ≡ none
put-get_past k v seconds t t' s le = ground (arith, eq_refl k)

abbrev pub toy_redis : Redis
toy_redis = record {
  State = State;
  get = λ k t s. s t k;
  set = put;
  set_nx = put_nx;
  delete = remove;
  get-set = put-get;
  get-set_within = put-get_within;
  get-set_past = put-get_past;
  get-set_other = λ k k' v ex t t' s ne. rw (eq-false_of_ne k k' ne) refl;
  set_nx_absent = λ k v seconds t s h. rw (put_nx, h) refl;
  set_nx_present = λ k v w seconds t s h. rw (put_nx, h) refl;
  get-delete = λ k t t' s le. rw (eq_refl k) refl;
  get-delete_other = λ k k' t t' s ne. rw (eq-false_of_ne k k' ne) refl;
}

-- A number as so many marks and an end.
abbrev pub marks : ℕ → String → String
marks zero s = String.◌∷◌ "," s
marks (suc n) s = String.◌∷◌ "i" (marks n s)

abbrev pub read_marks : String → ℕ × String
read_marks String.[] = (0, "")
read_marks (String.◌∷◌ c s) =
    let (n, rest) = read_marks s in if leb 105 (code c) then (suc n, rest) else (0, s)

pub read-marks : (n : ℕ) (s : String) → read_marks (marks n s) ≡ (n, s)
read-marks zero s = refl
read-marks (suc n) s = rw (read-marks n s) refl

abbrev pub sign : Bool → Char
sign true = "-"
sign false = "+"

pub read-sign : (b : Bool) → leb 45 (code (sign b)) ≡ b
read-sign true = refl
read-sign false = refl

abbrev pub show_decimal : Decimal → String
show_decimal d = String.◌∷◌ (sign d.negative) (marks d.coefficient (marks d.places ""))

abbrev pub read_decimal : String → Option Decimal
read_decimal String.[] = none
read_decimal (String.◌∷◌ c s) =
    let (n, rest) = read_marks s in
    let (p, _) = read_marks rest in
    some (record { negative = leb 45 (code c); coefficient = n; places = p })

pub read-show : (d : Decimal) → read_decimal (show_decimal d) ≡ some d
read-show d =
    rw (read-marks d.coefficient (marks d.places ""), read-marks d.places "")
      (ap (λ b. some (record d { negative = b })) (read-sign d.negative))

abbrev pub toy_text : DecimalText
toy_text = record { show = show_decimal; parse = read_decimal; parse-show = read-show }
