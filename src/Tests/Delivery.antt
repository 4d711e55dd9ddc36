-- ===== src/Tests/Delivery.antt =====
-- app/tasks/delivery.py and app/services/rates.py
use parcel_delivery_api.Base.{
  ℕ, ◌+◌, ◌≡◌, refl, String, true, none, some, List, [], ◌∷◌, map, arith,
}
use parcel_delivery_api.Base.Rows.{count, All}
use parcel_delivery_api.Core.Action.{ok}
use parcel_delivery_api.Core.Settings.{Settings, default_settings}
use mathlib.Core.Bool.{xor}
use parcel_delivery_api.Core.Decimal.{Decimal, decimal, ◌*ᴰ◌, ◌+ᴰ◌, negative_value}
use parcel_delivery_api.Db.Memory.{memory}
use parcel_delivery_api.Models.Parcel.{Parcel}
use parcel_delivery_api.Tasks.Rates.{rate_key, fetch_attempts, fetch_rate_from_cbr}
use parcel_delivery_api.Tasks.Rates.Caching.{store_rate, rate-fetched}
use parcel_delivery_api.Tasks.Delivery.{
  Outside, unpriced, formula, recalc_delivery_costs, set_last_run, price_loop,
}
use parcel_delivery_api.Tasks.Delivery.Pricing.{Fits, price_row}
use parcel_delivery_api.Tasks.Delivery.Loop.{price_loop-prices}
use parcel_delivery_api.Tasks.Delivery.Runs.{locked, rate_of, recalc_prices, next_run_skipped}
use parcel_delivery_api.Tests.ToyRedis.{State, toy_redis, toy_text}

abbrev pub laptop : Parcel
laptop = record {
  id = "p1";
  name = "laptop";
  weight_kg = decimal 2000 3;
  declared_value_usd = decimal 90000 2;
  session_id = "s1";
  delivery_cost_rub = none;
  parcel_type_id = "t1";
  user_id = none;
}

abbrev pub book : Parcel
book = record laptop { id = "p2"; name = "book"; weight_kg = decimal 400 3 }

abbrev priced : Parcel
priced = record laptop { id = "p3"; delivery_cost_rub = some (decimal 100 2) }

abbrev pub table : List Parcel
table = laptop ∷ priced ∷ book ∷ []

-- Batches of one, so that the loop goes round twice.
abbrev one_by_one : Settings
one_by_one = record default_settings { delivery_batch_size = 1 }

abbrev pub rate : Decimal
rate = decimal 8 0

abbrev pub tick : ℕ → Outside
tick now = record {
  locked_at = now;
  rate_at = now;
  ended_at = now + 1;
  today = "2026-01-02";
  answers = none ∷ some rate ∷ [];
  end_text = "2026-01-02T00:00:00+00:00";
  show_count = λ n. "2";
}

abbrev pub empty : State
empty = λ t k. none

fits : All (Fits memory one_by_one rate) table
unfolding formula ◌*ᴰ◌ ◌+ᴰ◌ xor negative_value
fits = ((_, refl), ((_, refl), ((_, refl), tt)))

price_loop-prices_example :
    (t' : List Parcel) × (price_loop memory one_by_one 3 rate 0 table ≡ some (ok 2, t'))
    × (t' ≡ map (price_row memory one_by_one rate) table)
    × (count unpriced t' ≡ 0)
price_loop-prices_example =
    price_loop-prices memory one_by_one rate 3 0 table (omega arith) (refl, (refl, (refl, tt))) fits
      (omega arith)

abbrev key : String
key = rate_key "2026-01-02"

pub second_answer : fetch_rate_from_cbr (none ∷ some rate ∷ []) ≡ ok rate
unfolding fetch_attempts
second_answer = refl

abbrev with_lock : State
with_lock = locked memory toy_redis toy_text one_by_one 5 empty

abbrev with_rate : State
with_rate = store_rate toy_redis toy_text one_by_one "2026-01-02" 5 rate with_lock

rate_fetched :
    rate_of memory toy_redis toy_text one_by_one (tick 5) with_lock ≡ (ok rate, with_rate)
rate_fetched =
    rate-fetched toy_redis toy_text one_by_one "2026-01-02" 5 (none ∷ some rate ∷ []) with_lock rate
      refl second_answer

recalc_prices_example :
    (t' : List Parcel) × (recalc_delivery_costs memory toy_redis toy_text one_by_one 3
        (tick 5)
        table
        empty
      ≡ some (ok 2, t', set_last_run memory toy_redis toy_text one_by_one (tick 5) 2 with_rate))
    × (t' ≡ map (price_row memory one_by_one rate) table)
    × (count unpriced t' ≡ 0)
recalc_prices_example =
    recalc_prices memory toy_redis toy_text one_by_one 3 (tick 5) table empty with_rate rate refl
      rate_fetched (omega arith) (refl, (refl, (refl, tt))) fits (omega arith)

first_run :
    (t' : List Parcel) × (recalc_delivery_costs memory toy_redis toy_text one_by_one 3
        (tick 5)
        table
        empty
      ≡ some (ok 2, t', set_last_run memory toy_redis toy_text one_by_one (tick 5) 2 with_rate))
    × (t' ≡ map (price_row memory one_by_one rate) table)
    × (count unpriced t' ≡ 0)
first_run =
    recalc_prices memory toy_redis toy_text one_by_one 3 (tick 5) table empty with_rate rate refl
      rate_fetched (omega arith) (refl, (refl, (refl, tt))) fits (omega arith)

abbrev after_run : State
after_run = set_last_run memory toy_redis toy_text one_by_one (tick 5) 2 with_rate

-- The scheduled run five minutes after the first one, with the default lifetime of the lock.
next_run_skipped_example :
    let t' = first_run.0 in
    recalc_delivery_costs memory toy_redis toy_text one_by_one 3 (tick 305) t' after_run
    ≡ some (ok 0, t', after_run)
next_run_skipped_example =
    next_run_skipped memory toy_redis toy_text one_by_one 3 3 (tick 5) (tick 305) table first_run.0
      empty after_run (ok 2) refl first_run.1 (omega arith) (omega arith)

-- A negative rate, whose prices the CHECK of the column refuses.
abbrev wrong_rate : Decimal
wrong_rate = record { negative = true; coefficient = 8; places = 0 }
