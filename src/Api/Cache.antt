-- ===== src/Api/Cache.antt =====
-- app/core/cache.py. How a value becomes JSON text, and a cache key's JSON its text, are parameters.
pub mod Staleness
use parcel_delivery_api.Base.{
  ℕ, ◌≡◌, String, Bool, true, false, Option, none, some, List, ◌==◌, if◌then◌else◌,
}
use Prim.Native.String.{◌++◌}
use parcel_delivery_api.Core.Text.Search.{first_chars}
use parcel_delivery_api.Core.Exceptions.{Failure}
use parcel_delivery_api.Core.Action.{Action, Result, ok, raised}
use parcel_delivery_api.Core.Settings.{Settings}
use parcel_delivery_api.Tasks.Redis.{Redis}
use parcel_delivery_api.Api.Http.{HttpRequest, given}

-- `json.dumps(jsonable_encoder(value))` and `json.loads`: what was written is read as `as_json` of the
-- value, and no JSON text is empty.
pub record Json (A : Type 0) : Type 0 where
  pub dumps : A → String
  pub loads : String → A
  pub as_json : A → A
  pub loads-dumps : (a : A) → loads (dumps a) ≡ as_json a
  pub dumps-nonempty : (a : A) → (dumps a == "") ≡ false

-- The texts that a cache key is made of: `hexdigest` of sha256, and the sorted JSON of the identity,
-- if any, the path and the query.
pub record KeyText : Type 0 where
  pub hexdigest : String → String
  pub raw_key : Option String → String → String → String

-- `request.headers.get(name, "anon")`
abbrev pub or_anon : Option String → String
or_anon none = "anon"
or_anon (some s) = s

module _ (keys : KeyText) (settings : Settings) where
  abbrev pub identity : HttpRequest → String
  identity request =
      if settings.auth_required
      then first_chars 16 (keys.hexdigest (or_anon (request.headers "Authorization")))
      else or_anon (request.headers "X-Session-Id")

  unfoldable pub make_cache_key : String → HttpRequest → String → String → String
  make_cache_key prefix request path query =
      prefix ++ (":" ++ keys.hexdigest (keys.raw_key (some (identity request)) path query))

  unfoldable pub make_cache_key_no_session : String → String → String → String
  make_cache_key_no_session prefix path query =
      prefix ++ (":" ++ keys.hexdigest (keys.raw_key none path query))

module _ {S A : Type 0} (redis : Redis) (json : Json A) where
  abbrev pub store : String → ℕ → ℕ → redis.State → Result A × S → Result A × (S × redis.State)
  store key ttl stored_at r (raised e, s) = (raised e, (s, r))
  store key ttl stored_at r (ok a, s) =
      (ok a, (s, redis.set key (json.dumps a) (some ttl) stored_at r))

  -- `read_at` and `stored_at` are when Redis runs the two commands.
  unfoldable pub redis_cache : String → ℕ → ℕ → ℕ → Action S A → Action (S × redis.State) A
  redis_cache key ttl read_at stored_at handler (s, r) = elim (given (redis.get key read_at r)) [
    | some cached ↦ (ok (json.loads cached), (s, r))
    | none ↦ store key ttl stored_at r (handler s)
  ]
