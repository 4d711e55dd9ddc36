-- ===== src/Api/Cache/Staleness.antt =====
-- What `redis_cache` answers after a handler has run.
use parcel_delivery_api.Base.{ℕ, ◌+◌, ◌≤◌, ◌<◌, ◌≡◌, String, none, some, arith}
use parcel_delivery_api.Core.Exceptions.{Failure}
use parcel_delivery_api.Core.Action.{Action, ok, raised}
use parcel_delivery_api.Tasks.Redis.{Redis}
use parcel_delivery_api.Api.Cache.{Json, redis_cache}

module _ {S A : Type 0} (redis : Redis) (json : Json A) where
  -- A handler that succeeds behind an empty cache entry is answered for until the lifetime of the entry
  -- is over: any later handler behind the same key does not run, and the reply is the JSON form of
  -- the first one, whatever has happened to the rest of the state.
  pub cached_reply :
      (key : String) (ttl read_at stored_at again stored_again : ℕ) (first next : Action S A)
      (s s1 s2 : S) (r : redis.State) (a : A)
      → redis.get key read_at r ≡ none
      → first s ≡ (ok a, s1)
      → stored_at ≤ again
      → again < stored_at + ttl
      → (r' : redis.State) × (redis_cache redis json key ttl read_at stored_at first (s, r)
          ≡ (ok a, (s1, r')))
        × (redis_cache redis json key ttl again stored_again next (s2, r')
            ≡ (ok (json.as_json a), (s2, r')))
  unfolding redis_cache
  cached_reply key ttl read_at stored_at again stored_again first next s s1 s2 r a h e le lt = (
    redis.set key (json.dumps a) (some ttl) stored_at r,
    ground (arith, h, e),
    ground (
      arith,
      redis.get-set_within key (json.dumps a) ttl stored_at again r le lt,
      json.dumps-nonempty a,
      json.loads-dumps a,
    ),
  )

  -- A failure is not cached: it reaches the caller and Redis stays as it was.
  pub failure_not_cached :
      (key : String) (ttl read_at stored_at : ℕ) (handler : Action S A) (s s1 : S) (r : redis.State)
      (e : Failure)
      → redis.get key read_at r ≡ none
      → handler s ≡ (raised e, s1)
      → redis_cache redis json key ttl read_at stored_at handler (s, r) ≡ (raised e, (s1, r))
  unfolding redis_cache
  failure_not_cached key ttl read_at stored_at handler s s1 r e h k = ground (arith, h, k)
