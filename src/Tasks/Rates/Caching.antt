-- ===== src/Tasks/Rates/Caching.antt =====
-- `get_usd_rub_rate`: the cache by date and the three attempts.
use parcel_delivery_api.Base.{
  ℕ, ◌+◌, ◌≤◌, ◌<◌, ◌≡◌, refl, String, Option, none, some, List, ◌∷◌, arith,
}
use parcel_delivery_api.Core.Exceptions.{upstream_error}
use parcel_delivery_api.Core.Action.{Result, ok, raised}
use parcel_delivery_api.Core.Settings.{Settings}
use parcel_delivery_api.Core.Decimal.{Decimal}
use parcel_delivery_api.Tasks.Redis.{Redis}
use parcel_delivery_api.Tasks.Rates.{
  DecimalText, rate_key, fetch_attempts, fetch_rate_from_cbr, get_usd_rub_rate,
}

module _ (redis : Redis) (text : DecimalText) (settings : Settings) where
  open redis use {State, get, set}

  abbrev pub store_rate : String → ℕ → Decimal → State → State
  store_rate today now rate s =
      set (rate_key today) (text.show rate) (some settings.cache_ttl_rate) now s

  pub rate-cached :
      (today raw : String) (now : ℕ) (answers : List (Option Decimal)) (s : State)
      → (rate : Decimal) → get (rate_key today) now s ≡ some raw
      → text.parse raw ≡ some rate
      → get_usd_rub_rate redis text settings today now answers s ≡ (ok rate, s)
  unfolding get_usd_rub_rate
  rate-cached today raw now answers s rate h e = ground (arith, h, e)

  pub rate-fetched :
      (today : String) (now : ℕ) (answers : List (Option Decimal)) (s : State)
      → (rate : Decimal) → get (rate_key today) now s ≡ none
      → fetch_rate_from_cbr answers ≡ ok rate
      → get_usd_rub_rate redis text settings today now answers s
        ≡ (ok rate, store_rate today now rate s)
  unfolding get_usd_rub_rate
  rate-fetched today now answers s rate h e = ground (arith, h, e)

  -- The rate is fetched when none is cached for the date, and is then the answer for that date until
  -- the cache's lifetime is over, whatever the mirror would answer and without a change of Redis.
  pub fetch_then_cached :
      (today : String) (now later : ℕ) (answers answers' : List (Option Decimal)) (s : State)
      (rate : Decimal)
      → get (rate_key today) now s ≡ none
      → fetch_rate_from_cbr answers ≡ ok rate
      → now ≤ later
      → later < now + settings.cache_ttl_rate
      → (s' : State) × (get_usd_rub_rate redis text settings today now answers s ≡ (ok rate, s'))
        × (get_usd_rub_rate redis text settings today later answers' s' ≡ (ok rate, s'))
  fetch_then_cached today now later answers answers' s rate h e le lt = (
    store_rate today now rate s,
    rate-fetched today now answers s rate h e,
    rate-cached today (text.show rate) later answers' (store_rate today now rate s) rate
        (redis.get-set_within (rate_key today) (text.show rate) settings.cache_ttl_rate now later s
          le lt)
        (text.parse-show rate),
  )

  -- With no cached rate, one success among the first three answers is enough, the first of them
  -- counts, and three failures raise and store nothing.
  pub rate_attempts :
      (today : String) (now : ℕ) (a b c : Option Decimal) (rest : List (Option Decimal)) (s : State)
      (rate : Decimal)
      → get (rate_key today) now s ≡ none
      → let q = get_usd_rub_rate redis text settings today now (a ∷ b ∷ c ∷ rest) s in
        let fetched : Result Decimal × State = (ok rate, store_rate today now rate s) in
        (a ≡ some rate → q ≡ fetched)
        × (a ≡ none → b ≡ some rate → q ≡ fetched)
        × (a ≡ none → b ≡ none → c ≡ some rate → q ≡ fetched)
        × (a ≡ none → b ≡ none → c ≡ none → q ≡ (raised upstream_error, s))
  unfolding get_usd_rub_rate fetch_attempts
  rate_attempts today now a b c rest s rate h = (
    λ e. rw (h, e) refl,
    λ e f. rw (h, e, f) refl,
    λ e f g. rw (h, e, f, g) refl,
    λ e f g. rw (h, e, f, g) refl,
  )
