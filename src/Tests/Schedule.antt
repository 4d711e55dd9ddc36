-- ===== src/Tests/Schedule.antt =====
-- app/tasks/scheduler.py, and app/tasks/delivery.py where runs follow or overlap each other
use parcel_delivery_api.Base.{
  ℕ, zero, suc, ◌*◌, ◌≡◌, refl, ap, ◌∙◌, true, none, some, List, [], ◌∷◌, map, arith,
}
use parcel_delivery_api.Base.Rows.{All, count}
use parcel_delivery_api.Core.Action.{ok, raised}
use parcel_delivery_api.Core.Exceptions.{data_error}
use parcel_delivery_api.Core.Settings.{default_settings}
use mathlib.Core.Bool.{xor}
use parcel_delivery_api.Core.Decimal.{Decimal, decimal, at_places, ◌*ᴰ◌, ◌+ᴰ◌, negative_value}
use parcel_delivery_api.Db.Memory.{memory}
use parcel_delivery_api.Models.Parcel.{Parcel}
use parcel_delivery_api.Models.Parcel.Stored.{IsStored}
use parcel_delivery_api.Services.Parcel.{stored_cost}
use parcel_delivery_api.Tasks.Delivery.{
  unpriced, formula, cost_of, set_last_run, recalc_delivery_costs, fetch_unpriced, write_costs,
}
use parcel_delivery_api.Tasks.Delivery.Pricing.{Fits, price_row}
use parcel_delivery_api.Tasks.Delivery.Bounds.{base_units, heaviest, price_bound}
use parcel_delivery_api.Tasks.Delivery.Overlap.{Shared, Step, Reach, Rowwise, load}
use parcel_delivery_api.Tasks.Delivery.Overlap.Safety.{prices_stay_right}
use parcel_delivery_api.Tasks.Delivery.Runs.{locked, rate_of, recalc_prices}
use parcel_delivery_api.Tasks.Rates.Caching.{store_rate, rate-fetched}
use parcel_delivery_api.Tasks.Scheduler.{due, scheduled_run}
use parcel_delivery_api.Tasks.Scheduler.Ticks.{every_other_tick}
use parcel_delivery_api.Tests.ToyRedis.{State, toy_redis, toy_text}
use parcel_delivery_api.Tests.Delivery.{laptop, book, table, rate, tick, empty, second_answer}

laptop-IsStored : IsStored laptop
laptop-IsStored = record {
  weight = refl;
  weight_limit = omega arith;
  weight_positive = omega arith;
  value = refl;
  value_limit = omega arith;
}

-- The laptop at a rate of 78.5, and the heaviest parcel at 96.
price_bound_example :
    (stored_cost memory default_settings (cost_of default_settings (decimal 785 1) laptop)
      ≡ ok (at_places (decimal (base_units 2000 90000 * 785) 5) 2))
    × IsStored (heaviest memory laptop)
    × (stored_cost memory default_settings
          (cost_of default_settings (decimal 96 0) (heaviest memory laptop))
        ≡ raised data_error)
price_bound_example = price_bound memory laptop 785 1 laptop-IsStored (omega arith) (omega arith)

abbrev rates : ℕ → Decimal
rates zero = rate
rates (suc n) = decimal 9 0

abbrev after_first : List Parcel
after_first = map (price_row memory default_settings rate) table

abbrev after_second : List Parcel
after_second = map (price_row memory default_settings (rates 1)) table

abbrev batch : List Parcel
batch = laptop ∷ book ∷ []

batch_fetched : fetch_unpriced memory default_settings table ≡ batch
batch_fetched = refl

first_write : write_costs memory default_settings (rates 0) batch table ≡ ok after_first
unfolding write_costs formula ◌*ᴰ◌ ◌+ᴰ◌ xor negative_value
first_write = refl

second_write : write_costs memory default_settings (rates 1) batch after_first ≡ ok after_second
unfolding write_costs formula ◌*ᴰ◌ ◌+ᴰ◌ xor negative_value
second_write = refl

abbrev nothing : ℕ → List Parcel
nothing = λ i. []

loaded_first : load (load nothing 0 batch) 1 batch 0 ≡ batch
loaded_first = ground arith

loaded_second : load (load (load nothing 0 batch) 1 batch) 0 [] 1 ≡ batch
loaded_second = ground arith

-- Both runs fetch the same batch, and both commit it.
abbrev overlapped : Shared memory
overlapped = record {
  table = after_second;
  loaded = load (load (load (load nothing 0 batch) 1 batch) 0 []) 1 [];
}

overlapped-Reach : Reach memory default_settings rates table overlapped
overlapped-Reach =
    Reach.next
      (Reach.next (Reach.next (Reach.next Reach.start (Step.fetch _ 0)) (Step.fetch _ 1)) (
        Step.commit _ 0 after_first (
          ap (λ b. write_costs memory default_settings (rates 0) b table) loaded_first
          ∙ first_write)))
      (Step.commit _ 1 after_second (
        ap (λ b. write_costs memory default_settings (rates 1) b after_first) loaded_second
        ∙ second_write))

prices_stay_right_example : Rowwise memory default_settings rates table after_second
prices_stay_right_example =
    prices_stay_right memory default_settings rates table overlapped (refl, (refl, (refl, tt)))
      overlapped-Reach

abbrev lock_at : ℕ → State → State
lock_at = locked memory toy_redis toy_text default_settings

abbrev rate_stored : ℕ → State → State
rate_stored now r = store_rate toy_redis toy_text default_settings "2026-01-02" now rate r

fits : All (Fits memory default_settings rate) table
unfolding formula ◌*ᴰ◌ ◌+ᴰ◌ xor negative_value
fits = ((_, refl), ((_, refl), ((_, refl), tt)))

first_rate :
    rate_of memory toy_redis toy_text default_settings (tick 5) (lock_at 5 empty)
    ≡ (ok rate, rate_stored 5 (lock_at 5 empty))
first_rate =
    rate-fetched toy_redis toy_text default_settings "2026-01-02" 5 (none ∷ some rate ∷ [])
      (lock_at 5 empty) rate refl second_answer

first_run :
    (t' : List Parcel) × (recalc_delivery_costs memory toy_redis toy_text default_settings 3
        (tick 5)
        table
        empty
      ≡ some (
        ok 2,
        t',
        set_last_run memory toy_redis toy_text default_settings
            (tick 5)
            2
            (rate_stored 5 (lock_at 5 empty)),
      ))
    × (t' ≡ map (price_row memory default_settings rate) table)
    × (count unpriced t' ≡ 0)
first_run =
    recalc_prices memory toy_redis toy_text default_settings 3 (tick 5) table empty
      (rate_stored 5 (lock_at 5 empty)) rate refl first_rate (omega arith)
      (refl, (refl, (refl, tt))) fits (omega arith)

abbrev after_run : State
after_run =
    set_last_run memory toy_redis toy_text default_settings (tick 5) 2
      (rate_stored 5 (lock_at 5 empty))

third_rate :
    rate_of memory toy_redis toy_text default_settings (tick 605) (lock_at 605 after_run)
    ≡ (ok rate, rate_stored 605 (lock_at 605 after_run))
third_rate =
    rate-fetched toy_redis toy_text default_settings "2026-01-02" 605 (none ∷ some rate ∷ [])
      (lock_at 605 after_run) rate refl second_answer

every_other_tick_example :
    (due default_settings 300 ≡ true)
    × (due default_settings 600 ≡ true)
    × (scheduled_run memory toy_redis toy_text default_settings (tick 305) first_run.0 after_run
        ≡ some (ok 0, first_run.0, after_run))
    × ((t3 : List Parcel) × (scheduled_run memory toy_redis toy_text default_settings
            (tick 605)
            table
            after_run
          ≡ some (
            ok 2,
            t3,
            set_last_run memory toy_redis toy_text default_settings
                (tick 605)
                2
                (rate_stored 605 (lock_at 605 after_run)),
          ))
        × (t3 ≡ map (price_row memory default_settings rate) table))
unfolding scheduled_run due
every_other_tick_example =
    every_other_tick memory toy_redis toy_text 0 (tick 5) (tick 305) (tick 605) table first_run.0
      table empty after_run (rate_stored 605 (lock_at 605 after_run)) (ok 2) rate refl
      (omega arith, omega arith) (omega arith, omega arith) (omega arith, omega arith) refl
      first_run.1 third_rate (refl, (refl, (refl, tt))) fits
