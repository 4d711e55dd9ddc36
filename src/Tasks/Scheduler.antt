-- ===== src/Tasks/Scheduler.antt =====
-- app/tasks/scheduler.py: when the cron trigger fires, and what the job then does. Times are seconds
-- since the start of an hour in UTC.
pub mod Ticks
use parcel_delivery_api.Base.{ℕ, suc, ◌/◌, ◌%◌, Bool, ◌&&◌}
use parcel_delivery_api.Base.Rows.{count}
use parcel_delivery_api.Core.Settings.{Settings}
use parcel_delivery_api.Db.Sql.{Sql}
use parcel_delivery_api.Models.Parcel.{Parcel}
use parcel_delivery_api.Tasks.Redis.{Redis}
use parcel_delivery_api.Tasks.Rates.{DecimalText}
use parcel_delivery_api.Tasks.Delivery.{Outside, Run, unpriced, recalc_delivery_costs}
use Prim.Native.Nat.{compare, Ordering}
use mathlib.Core.Bool.{true, false}

abbrev pub is_zero : ℕ → Bool
is_zero n = elim (compare n 0) [ Ordering.eq ↦ true | _ ↦ false ]

-- The cron field `minute="*/n"`: at second 0 of the minutes that n divides
unfoldable pub due : Settings → ℕ → Bool
due settings t = is_zero (t % 60) && is_zero (t / 60 % 60 % settings.delivery_job_interval_min)

module _ (sql : Sql) (redis : Redis) (text : DecimalText) (settings : Settings) where
  -- The job that `init_scheduler` adds; the fuel is more than the number of unpriced parcels.
  unfoldable pub scheduled_run :
      Outside → sql.Table Parcel → redis.State → Run sql redis text settings
  unfolding recalc_delivery_costs
  scheduled_run o t r =
      recalc_delivery_costs sql redis text settings (suc (count unpriced (sql.rows t))) o t r
