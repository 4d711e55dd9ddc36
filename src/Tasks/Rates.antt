-- ===== src/Tasks/Rates.antt =====
-- app/services/rates.py. The answers of the bank's mirror, one for each attempt, are an argument
-- (`none` is a failed attempt), and so is the date; the text form of a `Decimal` is a parameter.
pub mod Caching
use parcel_delivery_api.Base.{ℕ, zero, suc, ◌≡◌, String, Option, none, some, List, [], ◌∷◌}
use Prim.Native.String.{◌++◌}
use parcel_delivery_api.Core.Exceptions.{upstream_error, arithmetic_error}
use parcel_delivery_api.Core.Action.{
  Action, Result, ok, raised, pure, raise, lift, gets, modify, ◌>>=◌, ◌>>◌,
}
use parcel_delivery_api.Core.Settings.{Settings}
use parcel_delivery_api.Core.Decimal.{Decimal}
use parcel_delivery_api.Tasks.Redis.{Redis}

-- `str` of a `Decimal`, and `Decimal` of a text, which reads what `str` wrote.
pub record DecimalText : Type 0 where
  pub show : Decimal → String
  pub parse : String → Option Decimal
  pub parse-show : (d : Decimal) → parse (show d) ≡ some d

-- `@retry(stop=stop_after_attempt(3), reraise=True)`: the first answer among the attempts left.
unfoldable pub fetch_attempts : ℕ → List (Option Decimal) → Result Decimal
fetch_attempts zero answers = raised upstream_error
fetch_attempts (suc n) [] = raised upstream_error
fetch_attempts (suc n) (none ∷ answers) = fetch_attempts n answers
fetch_attempts (suc n) (some rate ∷ answers) = ok rate

abbrev pub fetch_rate_from_cbr : List (Option Decimal) → Result Decimal
fetch_rate_from_cbr answers = fetch_attempts 3 answers

abbrev pub rate_key : String → String
rate_key date = "usd_rub:" ++ date

module _ (redis : Redis) (text : DecimalText) (settings : Settings) where
  open redis use {State, get, set}

  abbrev pub to_decimal : String → Action State Decimal
  to_decimal raw = elim (text.parse raw) [ none ↦ raise arithmetic_error | some d ↦ pure d ]

  abbrev pub fetch_and_cache : String → ℕ → List (Option Decimal) → Action State Decimal
  fetch_and_cache key now answers = do
    rate ← lift (fetch_rate_from_cbr answers)
    modify (set key (text.show rate) (some settings.cache_ttl_rate) now)
    pure rate

  abbrev pub cached_or_fetched :
      String → ℕ → List (Option Decimal) → Option String → Action State Decimal
  cached_or_fetched key now answers (some raw) = to_decimal raw
  cached_or_fetched key now answers none = fetch_and_cache key now answers

  -- `today` is the UTC date; `now` is when Redis runs the two commands.
  unfoldable pub get_usd_rub_rate : String → ℕ → List (Option Decimal) → Action State Decimal
  get_usd_rub_rate today now answers = do
    cached ← gets (get (rate_key today) now)
    cached_or_fetched (rate_key today) now answers cached
