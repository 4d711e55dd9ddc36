-- ===== src/Api/Cached/Outcome.antt =====
-- The ways in which a request of a cached route ends.
use parcel_delivery_api.Base.{
  ℕ, ◌≡◌, inl, inr, refl, String, Bool-cases, Option-cases, true, false, Option, none, some,
}
use parcel_delivery_api.Core.Exceptions.{Failure, rate_limit_exceeded}
use parcel_delivery_api.Core.Action.{Action, Result, Result-cases, ok, raised}
use parcel_delivery_api.Core.Settings.{Settings}
use parcel_delivery_api.Core.Crypto.{Crypto}
use parcel_delivery_api.Tasks.Redis.{Redis}
use parcel_delivery_api.Api.Http.{HttpRequest, limit, given}
use parcel_delivery_api.Api.Cache.{Json, KeyText, store, redis_cache}
use parcel_delivery_api.Api.Cached.{Bearer, Visit, owner_of, key_of, serve}

module _ (crypto : Crypto) (settings : Settings) (bearer : Bearer) (keys : KeyText) (redis : Redis)
    {S A : Type 0} (json : Json A) (prefix item : String)
    (handler : String → String → String → Action S A) where
  abbrev pub owner_at : HttpRequest → ℕ → Result String
  owner_at request now = owner_of crypto settings bearer request now

  abbrev pub key : HttpRequest → String → String → String
  key request path query =
      key_of crypto settings bearer keys redis json prefix item handler request path query

  abbrev pub run : Visit → Action (S × redis.State) A
  run v = serve crypto settings bearer keys redis json prefix item handler v

  serve-refused :
      (v : Visit) (s : S) (r : redis.State) (e : Failure)
      → owner_at v.request v.now ≡ raised e
      → run v (s, r) ≡ (raised e, (s, r))
  unfolding serve
  serve-refused v s r e k = rw (serve, k) refl

  serve-limited :
      (v : Visit) (s : S) (r : redis.State) (owner : String)
      → owner_at v.request v.now ≡ ok owner
      → v.hit ≡ false
      → run v (s, r) ≡ (raised (rate_limit_exceeded item), (s, r))
  unfolding serve limit
  serve-limited v s r owner k h = rw (serve, k, limit, h) refl

  abbrev pub cached_at : Visit → redis.State → Option String
  cached_at v r = given (redis.get (key v.request v.path v.query) v.read_at r)

  serve-cached :
      (v : Visit) (s : S) (r : redis.State) (owner raw : String)
      → owner_at v.request v.now ≡ ok owner
      → v.hit ≡ true
      → cached_at v r ≡ some raw
      → run v (s, r) ≡ (ok (json.loads raw), (s, r))
  unfolding serve limit redis_cache
  serve-cached v s r owner raw k h c = rw (serve, k, limit, h, redis_cache, c) refl

  serve-run :
      (v : Visit) (s : S) (r : redis.State) (owner : String)
      → owner_at v.request v.now ≡ ok owner
      → v.hit ≡ true
      → cached_at v r ≡ none
      → run v (s, r)
        ≡ store redis json
            (key v.request v.path v.query)
            settings.cache_ttl_default
            v.stored_at
            r
            (handler v.path v.query owner s)
  unfolding serve limit redis_cache
  serve-run v s r owner k h c = rw (serve, k, limit, h, redis_cache, c) refl

  -- The ways in which a visit ends: it fails, or is answered from Redis, or by the handler.
  pub data Outcome (v : Visit) (s : S) (r : redis.State) : Result A → S × redis.State → Type 0 where
    fails : (e : Failure) (s' : S) → Outcome v s r (raised e) (s', r)
    found :
        (owner raw : String)
        → owner_at v.request v.now ≡ ok owner
        → cached_at v r ≡ some raw
        → Outcome v s r (ok (json.loads raw)) (s, r)
    ran :
        (owner : String) (a : A) (s' : S)
        → owner_at v.request v.now ≡ ok owner
        → (handler v.path v.query owner s).0 ≡ ok a
        → Outcome v s r (ok a) (
          s',
          redis.set
              (key v.request v.path v.query)
              (json.dumps a)
              (some settings.cache_ttl_default)
              v.stored_at
              r,
        )

  store-Outcome :
      (v : Visit) (s : S) (r : redis.State) (owner : String) (q : Result A × S)
      → owner_at v.request v.now ≡ ok owner
      → (handler v.path v.query owner s).0 ≡ q.0
      → let u =
          store redis json
            (key v.request v.path v.query)
            settings.cache_ttl_default
            v.stored_at
            r
            q in
        Outcome v s r u.0 u.1
  store-Outcome v s r owner (raised e, s') k h = Outcome.fails e s'
  store-Outcome v s r owner (ok a, s') k h = Outcome.ran owner a s' k h

  pub visit-Outcome :
      (v : Visit) (s : S) (r : redis.State) → Outcome v s r (run v (s, r)).0 (run v (s, r)).1
  visit-Outcome v s r = elim (Result-cases (owner_at v.request v.now)) [
    | inl (e, k) ↦ rw (serve-refused v s r e k) (Outcome.fails e s)
    | inr (owner, k) ↦ elim (Bool-cases v.hit) [
      | inr h ↦ rw (serve-limited v s r owner k h) (Outcome.fails (rate_limit_exceeded item) s)
      | inl h ↦ elim (Option-cases (cached_at v r)) [
        | inl c ↦
            rw (serve-run v s r owner k h c)
              (store-Outcome v s r owner (handler v.path v.query owner s) k refl)
        | inr (raw, c) ↦ rw (serve-cached v s r owner raw k h c) (Outcome.found owner raw k c)
      ]
    ]
  ]
