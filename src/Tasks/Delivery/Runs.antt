-- ===== src/Tasks/Delivery/Runs.antt =====
-- `recalc_delivery_costs` and the manual trigger: the lock, and a run from end to end.
use parcel_delivery_api.Base.{
  ℕ, ◌+◌, ◌≤◌, ◌<◌, ◌≡◌, ◌≢◌, refl, sym, ap, ◌∙◌, String, none, some, map, arith, ne_of_eq-false,
}
use Prim.Native.Char.{code}
use text.Mathlib.TextLemmas.{cons-append}
use parcel_delivery_api.Base.Rows.{All, count, Distinct}
use parcel_delivery_api.Core.Action.{Result, ok}
use parcel_delivery_api.Core.Settings.{Settings}
use parcel_delivery_api.Core.Decimal.{Decimal}
use parcel_delivery_api.Db.Sql.{Sql}
use parcel_delivery_api.Models.Parcel.{Parcel}
use parcel_delivery_api.Tasks.Redis.{Redis}
use parcel_delivery_api.Tasks.Rates.{DecimalText, rate_key, get_usd_rub_rate}
use parcel_delivery_api.Tasks.Delivery.{
  Outside, unpriced, lock_key, price_loop, set_last_run, price_all, recalc_delivery_costs,
  manual_recalc,
}
use parcel_delivery_api.Tasks.Delivery.Pricing.{Fits, price_row}
use parcel_delivery_api.Tasks.Delivery.Loop.{price_loop-prices}

abbrev initial : String → ℕ
initial String.[] = 0
initial (String.◌∷◌ c s) = code c

rate_key-ne : (date : String) → rate_key date ≢ lock_key
rate_key-ne date h =
    let e : initial (rate_key date) ≡ 117 = ap initial (cons-append "u" "sd_rub:" date) in
    let e' : initial (rate_key date) ≡ 100 = ap initial h in omega (arith, e, e')

module _ (sql : Sql) (redis : Redis) (text : DecimalText) (settings : Settings) where
  open sql use {Table, rows}
  open redis use {State, get, set}

  abbrev pub locked : ℕ → State → State
  locked now r = set lock_key "1" (some settings.delivery_lock_ttl) now r

  abbrev pub rate_of : Outside → State → Result Decimal × State
  rate_of o r = get_usd_rub_rate redis text settings o.today o.rate_at o.answers r

  pub recalc-locked :
      (fuel : ℕ) (o : Outside) (t : Table Parcel) (r : State)
      → get lock_key o.locked_at r ≡ none
      → recalc_delivery_costs sql redis text settings fuel o t r
        ≡ price_all sql redis text settings fuel o t (rate_of o (locked o.locked_at r))
  unfolding recalc_delivery_costs
  recalc-locked fuel o t r h =
      rw (redis.set_nx_absent lock_key "1" settings.delivery_lock_ttl o.locked_at r h) refl

  price_all-ok :
      (fuel n : ℕ) (o : Outside) (t t' : Table Parcel) (r : State) (rate : Decimal)
      → price_loop sql settings fuel rate 0 t ≡ some (ok n, t')
      → price_all sql redis text settings fuel o t (ok rate, r)
        ≡ some (ok n, t', set_last_run sql redis text settings o n r)
  price_all-ok fuel n o t t' r rate h = rw (price_all, h) refl

  rate-lock : (o : Outside) (r : State) (k : ℕ) → get lock_key k (rate_of o r).1 ≡ get lock_key k r
  unfolding get_usd_rub_rate
  rate-lock o r k = grind (arith, redis.get-set_other, rate_key-ne o.today)

  -- While the lock is there, a run returns zero and changes nothing.
  pub run_skipped :
      (fuel : ℕ) (o : Outside) (t : Table Parcel) (r : State) (w : String)
      → get lock_key o.locked_at r ≡ some w
      → recalc_delivery_costs sql redis text settings fuel o t r ≡ some (ok 0, t, r)
  unfolding recalc_delivery_costs
  run_skipped fuel o t r w h =
      rw (redis.set_nx_present lock_key "1" w settings.delivery_lock_ttl o.locked_at r h) refl

  -- A run that gets the lock, with a rate at hand, a batch of at least one, distinct parcel ids and
  -- prices that the column takes, returns the number of the unpriced parcels; each of them then has
  -- its price at that one rate, no other row has changed, and none is unpriced. Fuel past the number
  -- of the unpriced parcels is enough.
  pub recalc_prices :
      (fuel : ℕ) (o : Outside) (t : Table Parcel) (r r' : State) (rate : Decimal)
      → get lock_key o.locked_at r ≡ none
      → rate_of o (locked o.locked_at r) ≡ (ok rate, r')
      → 1 ≤ settings.delivery_batch_size
      → Distinct (λ p. p.id) (rows t)
      → All (Fits sql settings rate) (rows t)
      → count unpriced (rows t) < fuel
      → let n = count unpriced (rows t) in
        (t' : Table Parcel) × (recalc_delivery_costs sql redis text settings fuel o t r
          ≡ some (ok n, t', set_last_run sql redis text settings o n r'))
        × (rows t' ≡ map (price_row sql settings rate) (rows t))
        × (count unpriced (rows t') ≡ 0)
  recalc_prices fuel o t r r' rate h e b d a f =
      let (t', l, m, z) = price_loop-prices sql settings rate fuel 0 t b d a f in
      (
        t',
        recalc-locked fuel o t r h
            ∙ ap (price_all sql redis text settings fuel o t) e
            ∙ price_all-ok fuel (count unpriced (rows t)) o t t' r' rate
                (l ∙ ap (λ n. some (ok n, t')) (omega arith)),
        m,
        z,
      )

  -- The manual trigger deletes the lock first: right after that, its run always gets the lock.
  pub manual_run :
      (fuel deleted_at : ℕ) (o : Outside) (t : Table Parcel) (r : State)
      → deleted_at ≤ o.locked_at
      → manual_recalc sql redis text settings fuel deleted_at o t r
        ≡ price_all sql redis text settings fuel o t
            (rate_of o (locked o.locked_at (redis.delete lock_key deleted_at r)))
  unfolding manual_recalc
  manual_run fuel deleted_at o t r le =
      recalc-locked fuel o t (redis.delete lock_key deleted_at r)
        (redis.get-delete lock_key deleted_at o.locked_at r le)

  end-lock :
      (o : Outside) (n k : ℕ) (r : State)
      → get lock_key k (set_last_run sql redis text settings o n r) ≡ get lock_key k r
  end-lock o n k r =
      let updated_ne = ne_of_eq-false "delivery_last_run_at" lock_key refl in
      let at_ne = ne_of_eq-false "delivery_last_run_updated" lock_key refl in
      redis.get-set_other "delivery_last_run_at" lock_key o.end_text none o.ended_at k
        (set "delivery_last_run_updated" (o.show_count n) none o.ended_at r) updated_ne
      ∙ redis.get-set_other "delivery_last_run_updated" lock_key (o.show_count n) none o.ended_at k
          r at_ne

  price_all-lock :
      (fuel k : ℕ) (o : Outside) (t t' : Table Parcel) (r r' : State) (res : Result ℕ)
      (d : Result Decimal)
      → price_all sql redis text settings fuel o t (d, r) ≡ some (res, t', r')
      → get lock_key k r' ≡ get lock_key k r
  price_all-lock fuel k o t t' r r' res d h = grind (arith, end-lock o)

  -- A run that got the lock leaves it as it was set.
  pub run-lock :
      (fuel k : ℕ) (o : Outside) (t t' : Table Parcel) (r r' : State) (res : Result ℕ)
      → get lock_key o.locked_at r ≡ none
      → recalc_delivery_costs sql redis text settings fuel o t r ≡ some (res, t', r')
      → get lock_key k r' ≡ get lock_key k (locked o.locked_at r)
  run-lock fuel k o t t' r r' res h run =
      let r1 = locked o.locked_at r in
      let (d, r2) = rate_of o r1 in
      price_all-lock fuel k o t t' r2 r' res d (sym (recalc-locked fuel o t r h) ∙ run)
      ∙ rate-lock o r1 k

  -- After a run that got the lock, whether it ended well or raised, each run that starts within the
  -- lifetime of the lock returns zero and changes nothing: no run gives the lock back.
  pub next_run_skipped :
      (fuel fuel' : ℕ) (o next : Outside) (t t' : Table Parcel) (r r' : State) (res : Result ℕ)
      → get lock_key o.locked_at r ≡ none
      → recalc_delivery_costs sql redis text settings fuel o t r ≡ some (res, t', r')
      → o.locked_at ≤ next.locked_at
      → next.locked_at < o.locked_at + settings.delivery_lock_ttl
      → recalc_delivery_costs sql redis text settings fuel' next t' r' ≡ some (ok 0, t', r')
  next_run_skipped fuel fuel' o next t t' r r' res h run le lt = run_skipped fuel' next t' r' "1" (
      run-lock fuel next.locked_at o t t' r r' res h run
      ∙ redis.get-set_within lock_key "1" settings.delivery_lock_ttl o.locked_at next.locked_at r le
          lt)

  -- Once the lifetime of the lock is over, the key is gone.
  pub lock_expires :
      (fuel k : ℕ) (o : Outside) (t t' : Table Parcel) (r r' : State) (res : Result ℕ)
      → get lock_key o.locked_at r ≡ none
      → recalc_delivery_costs sql redis text settings fuel o t r ≡ some (res, t', r')
      → o.locked_at + settings.delivery_lock_ttl ≤ k
      → get lock_key k r' ≡ none
  lock_expires fuel k o t t' r r' res h run le =
      run-lock fuel k o t t' r r' res h run
      ∙ redis.get-set_past lock_key "1" settings.delivery_lock_ttl o.locked_at k r le
