-- ===== src/Api/Cached.antt =====
-- The cached routes of app/api/parcel.py from end to end in JWT mode: the guard that FastAPI resolves
-- first, then the two decorators from the outside in, then the handler.
pub mod Keys
pub mod Outcome
pub mod Isolation
pub mod Parcels
use parcel_delivery_api.Base.{ℕ, ◌≤◌, ◌≡◌, ◌⊎◌, refl, inl, String, Bool, Option, none, some}
use parcel_delivery_api.Core.Action.{Action, Result, ok, raised}
use parcel_delivery_api.Core.Settings.{Settings}
use parcel_delivery_api.Core.Crypto.{Crypto, Payload}
use parcel_delivery_api.Core.Text.Search.{first_chars}
use parcel_delivery_api.Tasks.Redis.{Redis}
use parcel_delivery_api.Api.Http.{HttpRequest, limit}
use parcel_delivery_api.Api.Deps.{get_parcel_reader_owner_id}
use parcel_delivery_api.Api.Cache.{Json, KeyText, or_anon, identity, make_cache_key, redis_cache}

-- What `OAuth2PasswordBearer` takes from the Authorization header; a value without the scheme is none.
pub record Bearer : Type 0 where
  pub token : Option String → Option String
  pub token-none : token none ≡ none
  pub token-anon : token (some "anon") ≡ none

-- Among the requests that occur, with their paths and queries, the digests of the cache keys do not
-- collide, nor do the cut digests of the Authorization headers; and JSON keeps the three texts apart.
pub record KeyLaws (keys : KeyText) (settings : Settings)
    (Occurs : HttpRequest → String → String → Type 0) : Type 0 where
  pub digest_inj :
      (r r' : HttpRequest) (p p' q q' : String)
      → Occurs r p q
      → Occurs r' p' q'
      → let raw = keys.raw_key (some (identity keys settings r)) p q in
        let raw' = keys.raw_key (some (identity keys settings r')) p' q' in
        keys.hexdigest raw ≡ keys.hexdigest raw' → raw ≡ raw'
  pub short_digest_inj :
      (r r' : HttpRequest) (p p' q q' : String)
      → Occurs r p q
      → Occurs r' p' q'
      → let h = or_anon (r.headers "Authorization") in
        let h' = or_anon (r'.headers "Authorization") in
        first_chars 16 (keys.hexdigest h) ≡ first_chars 16 (keys.hexdigest h') → h ≡ h'
  pub raw_key_inj :
      (i i' p p' q q' : String)
      → keys.raw_key (some i) p q ≡ keys.raw_key (some i') p' q'
      → (i ≡ i') × (p ≡ p') × (q ≡ q')

-- jwt.decode looks at the clock only to refuse: at two times it gives the same payload of a token.
abbrev pub OnePayload : Crypto → Type 0
OnePayload crypto =
    (token key algorithm issuer audience : String) (now now' : ℕ) (p p' : Payload)
    → crypto.jwt_decode token key algorithm issuer audience now ≡ some p
    → crypto.jwt_decode token key algorithm issuer audience now' ≡ some p'
    → p ≡ p'

-- A request, whether the rate limiter lets it pass, and when its token is decoded and Redis runs its
-- two commands.
pub record Visit : Type 0 where
  pub request : HttpRequest
  pub path : String
  pub query : String
  pub hit : Bool
  pub now : ℕ
  pub read_at : ℕ
  pub stored_at : ℕ

module _ (crypto : Crypto) (settings : Settings) (bearer : Bearer) where
  abbrev pub owner_of : HttpRequest → ℕ → Result String
  owner_of request now =
      get_parcel_reader_owner_id crypto settings request
        (bearer.token (request.headers "Authorization")) now

module _ (crypto : Crypto) (settings : Settings) (bearer : Bearer) (keys : KeyText) (redis : Redis)
    {S A : Type 0} (json : Json A) (prefix item : String)
    (handler : String → String → String → Action S A) where
  abbrev pub key_of : HttpRequest → String → String → String
  key_of request path query = make_cache_key keys settings prefix request path query

  unfoldable pub serve : Visit → Action (S × redis.State) A
  serve v (s, r) = elim (owner_of crypto settings bearer v.request v.now) [
    | raised e ↦ (raised e, (s, r))
    | ok owner ↦
        limit item v.hit
          (redis_cache redis json (key_of v.request v.path v.query) settings.cache_ttl_default
            v.read_at v.stored_at (handler v.path v.query owner))
          (s, r)
  ]

  pub record World : Type 0 where
    pub clock : ℕ
    pub db : S
    pub cache : redis.State

  abbrev pub after : Visit → World → World
  after v w =
      let (_, (s, r)) = serve v (w.db, w.cache) in record { clock = v.stored_at; db = s; cache = r }

  module _ (Occurs : HttpRequest → String → String → Type 0) where
    -- A step of the service: a request of this route that occurs, or something else, which may change the database
    -- in any way and Redis at any key but those of this route.
    pub data Step : World → World → Type 0 where
      visit :
          (w : World) (v : Visit)
          → Occurs v.request v.path v.query
          → w.clock ≤ v.read_at
          → v.read_at ≤ v.stored_at
          → Step w (after v w)
      elsewhere :
          (w : World) (t : ℕ) (s : S) (r : redis.State)
          → w.clock ≤ t
          → ((request : HttpRequest) (path query : String) (t' : ℕ)
              → redis.get (key_of request path query) t' r
                ≡ redis.get (key_of request path query) t' w.cache)
          → Step w (record { clock = t; db = s; cache = r })

    -- From a Redis without an entry of this route.
    pub data Reach : World → Type 0 where
      start :
          (w : World)
          → ((request : HttpRequest) (path query : String) (t : ℕ)
              → redis.get (key_of request path query) t w.cache ≡ none)
          → Reach w
      next : {w w' : World} → Reach w → Step w w' → Reach w'

    -- The states that the database had on the way.
    abbrev pub Past : {w : World} → Reach w → S → Type 0
    Past (start w empty) d = d ≡ w.db
    Past (next {w' = w'} before step) d = (d ≡ w'.db) ⊎ Past before d

    pub now-Past : {w : World} (reach : Reach w) → Past reach w.db
    now-Past (start w empty) = refl
    now-Past (next before step) = inl refl
