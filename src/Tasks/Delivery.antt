-- ===== src/Tasks/Delivery.antt =====
-- app/tasks/delivery.py and the manual trigger in app/tasks/routes.py. The reads of the clock and the
-- answers of the bank's mirror are an argument; log lines and metrics are left out.
pub mod Pricing
pub mod Loop
pub mod Runs
pub mod Termination
pub mod Bounds
pub mod Overlap
use parcel_delivery_api.Base.{
  ℕ, zero, suc, ◌+◌, String, Bool, true, false, Option, none, some, List, [], ◌∷◌, not, is_some,
  length, take, if◌then◌else◌,
}
use parcel_delivery_api.Core.Exceptions.{Failure}
use parcel_delivery_api.Core.Action.{Result, ok, raised}
use parcel_delivery_api.Core.Settings.{Settings}
use parcel_delivery_api.Core.Decimal.{Decimal, ◌*ᴰ◌, ◌+ᴰ◌}
use parcel_delivery_api.Db.Sql.{Sql}
use parcel_delivery_api.Models.Parcel.{Parcel}
use parcel_delivery_api.Services.Parcel.{update_cost}
use parcel_delivery_api.Tasks.Redis.{Redis}
use parcel_delivery_api.Tasks.Rates.{DecimalText, get_usd_rub_rate}

-- What a run reads from outside: when Redis runs its commands, the UTC date, the mirror's answers,
-- and the time of the end as text; `show_count` is `str` of an int.
pub record Outside : Type 0 where
  pub locked_at : ℕ
  pub rate_at : ℕ
  pub ended_at : ℕ
  pub today : String
  pub answers : List (Option Decimal)
  pub end_text : String
  pub show_count : ℕ → String

-- `Parcel.delivery_cost_rub.is_(None)`
abbrev pub unpriced : Parcel → Bool
unpriced p = not (is_some p.delivery_cost_rub)

abbrev pub lock_key : String
lock_key = "delivery_job_lock"

module _ (settings : Settings) where
  unfoldable pub formula : Decimal → Decimal → Decimal → Decimal
  formula weight declared rate =
      (weight *ᴰ settings.delivery_weight_coeff +ᴰ declared *ᴰ settings.delivery_value_coeff)
      *ᴰ rate

  abbrev pub cost_of : Decimal → Parcel → Decimal
  cost_of rate p = formula p.weight_kg p.declared_value_usd rate

module _ (redis : Redis) (settings : Settings) where
  abbrev pub acquire_lock : ℕ → redis.State → Bool × redis.State
  acquire_lock now r = redis.set_nx lock_key "1" settings.delivery_lock_ttl now r

module _ (sql : Sql) (settings : Settings) where
  open sql use {Table, scalars}

  abbrev pub fetch_unpriced : Table Parcel → List Parcel
  fetch_unpriced t = take settings.delivery_batch_size (scalars unpriced t)

  -- The UPDATEs of one commit, in order; the first that fails undoes them all.
  unfoldable pub write_costs : Decimal → List Parcel → Table Parcel → Result (Table Parcel)
  write_costs rate [] t = ok t
  write_costs rate (p ∷ ps) t = elim (update_cost sql settings p (cost_of settings rate p) t) [
    | ok t' ↦ write_costs rate ps t'
    | raised e ↦ raised e
  ]

  -- The while loop on fuel, with the number of updated parcels; `none` is no fuel left. A commit that
  -- fails leaves the batches before it.
  unfoldable pub price_loop : ℕ → Decimal → ℕ → Table Parcel → Option (Result ℕ × Table Parcel)
  price_loop zero rate updated t = none
  price_loop (suc fuel) rate updated t =
      let parcels = fetch_unpriced t in
      elim parcels [
        | [] ↦ some (ok updated, t)
        | p ∷ ps ↦ elim (write_costs rate (p ∷ ps) t) [
          | raised e ↦ some (raised e, t)
          | ok t' ↦ price_loop fuel rate (updated + length (p ∷ ps)) t'
        ]
      ]

module _ (sql : Sql) (redis : Redis) (text : DecimalText) (settings : Settings) where
  open sql use {Table}
  open redis use {State}

  abbrev pub Run : Type 0
  Run = Option (Result ℕ × Table Parcel × State)

  -- The two keys of metadata that a run sets at its end.
  abbrev pub set_last_run : Outside → ℕ → State → State
  set_last_run o updated r =
      redis.set "delivery_last_run_at" o.end_text none o.ended_at
        (redis.set "delivery_last_run_updated" (o.show_count updated) none o.ended_at r)

  abbrev pub finish : Outside → State → Result ℕ × Table Parcel → Run
  finish o r (ok updated, t) = some (ok updated, t, set_last_run o updated r)
  finish o r (raised e, t) = some (raised e, t, r)

  abbrev pub price_all : ℕ → Outside → Table Parcel → Result Decimal × State → Run
  price_all fuel o t (raised e, r) = some (raised e, t, r)
  price_all fuel o t (ok rate, r) = elim (price_loop sql settings fuel rate 0 t) [
    | none ↦ none
    | some q ↦ finish o r q
  ]

  abbrev pub run_locked : ℕ → Outside → Table Parcel → Bool × State → Run
  run_locked fuel o t (false, r) = some (ok 0, t, r)
  run_locked fuel o t (true, r) =
      price_all fuel o t (get_usd_rub_rate redis text settings o.today o.rate_at o.answers r)

  unfoldable pub recalc_delivery_costs : ℕ → Outside → Table Parcel → State → Run
  recalc_delivery_costs fuel o t r = run_locked fuel o t (acquire_lock redis settings o.locked_at r)

  -- The handler of POST /tasks/recalc-delivery, once the guards have let the request in.
  unfoldable pub manual_recalc : ℕ → ℕ → Outside → Table Parcel → State → Run
  unfolding recalc_delivery_costs
  manual_recalc fuel deleted_at o t r =
      recalc_delivery_costs fuel o t (redis.delete lock_key deleted_at r)
