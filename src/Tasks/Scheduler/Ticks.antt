-- ===== src/Tasks/Scheduler/Ticks.antt =====
-- How often the scheduled job runs with the default settings.
use parcel_delivery_api.Base.{ℕ, suc, ◌+◌, ◌%◌, ◌≤◌, ◌<◌, ◌≡◌, ◌≢◌, true, none, some, map, arith}
use parcel_delivery_api.Base.Rows.{All, count, Distinct}
use parcel_delivery_api.Core.Action.{Result, ok}
use parcel_delivery_api.Core.Settings.{default_settings}
use parcel_delivery_api.Core.Decimal.{Decimal}
use parcel_delivery_api.Db.Sql.{Sql}
use parcel_delivery_api.Models.Parcel.{Parcel}
use parcel_delivery_api.Tasks.Redis.{Redis}
use parcel_delivery_api.Tasks.Rates.{DecimalText}
use parcel_delivery_api.Tasks.Delivery.{Outside, Run, unpriced, lock_key, set_last_run}
use parcel_delivery_api.Tasks.Delivery.Pricing.{Fits, price_row}
use parcel_delivery_api.Tasks.Delivery.Runs.{
  locked, rate_of, recalc_prices, next_run_skipped, lock_expires,
}
use parcel_delivery_api.Tasks.Scheduler.{due, scheduled_run}

-- With the default interval the job is due at the multiples of 300 seconds.
due-multiple : (t : ℕ) → due default_settings t ≡ true → t % 300 ≡ 0
unfolding due
due-multiple t h = ground arith

multiple-due : (t : ℕ) → t % 300 ≡ 0 → due default_settings t ≡ true
unfolding due
multiple-due t h = ground arith

pub due_again : (t : ℕ) → due default_settings t ≡ true → due default_settings (t + 300) ≡ true
due_again t h = let m = due-multiple t h in multiple-due (t + 300) (omega arith)

due_twice : (t : ℕ) → due default_settings t ≡ true → due default_settings (t + 600) ≡ true
due_twice t h = let m = due-multiple t h in multiple-due (t + 600) (omega arith)

pub not_due_between :
    (t d : ℕ)
    → due default_settings t ≡ true
    → d < 300
    → 0 < d
    → due default_settings (t + d) ≢ true
not_due_between t d h lt pos e =
    let m = due-multiple t h in let n = due-multiple (t + d) e in omega arith

-- A start of the scheduled job: at most thirty seconds after its tick
abbrev pub StartsAt : Outside → ℕ → Type 0
StartsAt o t = (t ≤ o.locked_at) × (o.locked_at < t + 30)

module _ (sql : Sql) (redis : Redis) (text : DecimalText) where
  open sql use {Table, rows}
  open redis use {State, get}

  abbrev run : Outside → Table Parcel → State → Run sql redis text default_settings
  run = scheduled_run sql redis text default_settings

  -- With the default settings, of three ticks in a row, where each run starts within thirty seconds of
  -- its tick and the first gets the lock: the second does nothing, and the third gets the lock again;
  -- with a rate at hand, distinct ids and prices that the column takes it then prices every parcel
  -- that has no price, and changes no other row. The second and third tick are due if the first is.
  pub every_other_tick :
      (t : ℕ) (o1 o2 o3 : Outside) (t0 t1 t2 : Table Parcel) (r0 r1 r2 : State) (res : Result ℕ)
      (rate : Decimal)
      → due default_settings t ≡ true
      → StartsAt o1 t
      → StartsAt o2 (t + 300)
      → StartsAt o3 (t + 600)
      → get lock_key o1.locked_at r0 ≡ none
      → run o1 t0 r0 ≡ some (res, t1, r1)
      → rate_of sql redis text default_settings o3
          (locked sql redis text default_settings o3.locked_at r1)
        ≡ (ok rate, r2)
      → Distinct (λ p. p.id) (rows t2)
      → All (Fits sql default_settings rate) (rows t2)
      → (due default_settings (t + 300) ≡ true)
        × (due default_settings (t + 600) ≡ true)
        × (run o2 t1 r1 ≡ some (ok 0, t1, r1))
        × ((t3 : Table Parcel) × (run o3 t2 r1
              ≡ some (
                ok (count unpriced (rows t2)),
                t3,
                set_last_run sql redis text default_settings o3 (count unpriced (rows t2)) r2,
              ))
            × (rows t3 ≡ map (price_row sql default_settings rate) (rows t2)))
  unfolding scheduled_run
  every_other_tick t o1 o2 o3 t0 t1 t2 r0 r1 r2 res rate h (a1, b1) (a2, b2) (a3, b3) g e1 er d f =
      let fuel = suc (count unpriced (rows t0)) in
      let free =
        lock_expires sql redis text default_settings fuel o3.locked_at o1 t0 t1 r0 r1 res g e1
          (omega arith) in
      let (t3, e, m, z) =
        recalc_prices sql redis text default_settings (suc (count unpriced (rows t2))) o3 t2 r1 r2
          rate free er (omega arith) d f (omega arith) in
      (
        due_again t h,
        due_twice t h,
        next_run_skipped sql redis text default_settings fuel (suc (count unpriced (rows t1))) o1 o2
            t0 t1 r0 r1 res g e1 (omega arith) (omega arith),
        (t3, e, m),
      )
