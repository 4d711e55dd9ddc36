-- ===== src/Api/Application/Admission.antt =====
-- What stands between a request and the function of its route: dependencies, validation, the rate
-- limiter and the cache.
use parcel_delivery_api.Base.{
  ℕ, ◌≡◌, refl, String, Bool, true, false, Option, none, some, List, [], ◌==◌,
}
use parcel_delivery_api.Core.Exceptions.{
  Failure, unauthorized_error, forbidden_error, type_error, rate_limit_exceeded, validation_error,
}
use parcel_delivery_api.Core.Action.{Action, Result, ok, raised}
use parcel_delivery_api.Core.Action.Ends.{Post, Post-if, Post-elim, Ends, Fails}
use parcel_delivery_api.Core.Settings.{Settings}
use parcel_delivery_api.Core.Crypto.{Crypto}
use parcel_delivery_api.Core.Security.{TokenClaims, decode_token}
use parcel_delivery_api.Tasks.Redis.{Redis}
use parcel_delivery_api.Api.Http.{HttpRequest, given, limit, compare_digest}
use parcel_delivery_api.Api.Deps.{
  get_session_id, get_current_user_id, get_owner_id, bearer_claims, claims_or_error, subject,
  require_task_admin_token, check_digest,
}
use parcel_delivery_api.Api.Auth.{refresh_token_from_request, require_csrf, check_csrf}
use parcel_delivery_api.Api.Cache.{Json, redis_cache, store}
use parcel_delivery_api.Api.Application.{admit, with_status}

module _ (E : Failure → Type 0) where
  abbrev Refuses : {A : Type 0} → Result A → Type 0
  Refuses r = Post (λ _. Unit) E r

  compare_digest-Refuses : (a b : String) → E type_error → Refuses (compare_digest a b)
  unfolding compare_digest
  compare_digest-Refuses a b t = Post-if (λ _. Unit) E _ (ok (a == b)) (raised type_error) tt t

  module _ (settings : Settings) (forbidden : (m : String) → E (forbidden_error m))
      (t : E type_error) where
    check_digest-Refuses : (r : Result Bool) → Refuses r → Refuses (check_digest settings r)
    check_digest-Refuses (raised e) h = h
    check_digest-Refuses (ok true) h = tt
    check_digest-Refuses (ok false) h = forbidden "Invalid admin token"

    check_csrf-Refuses : (r : Result Bool) → Refuses r → Refuses (check_csrf settings r)
    check_csrf-Refuses (raised e) h = h
    check_csrf-Refuses (ok true) h = tt
    check_csrf-Refuses (ok false) h = forbidden "Invalid CSRF token"

    pub require_task_admin_token-Refuses :
        (x : Option String) → Refuses (require_task_admin_token settings x)
    unfolding require_task_admin_token
    require_task_admin_token-Refuses x =
        Post-if (λ _. Unit) E (settings.task_admin_token == "")
          (raised (forbidden_error "Manual task trigger is disabled")) _
          (forbidden "Manual task trigger is disabled")
          (Post-elim (λ _. Unit) E (given x) (raised (forbidden_error "Invalid admin token")) _
            (forbidden "Invalid admin token")
            λ a. check_digest-Refuses _ (compare_digest-Refuses a settings.task_admin_token t))

    pub require_csrf-Refuses : (request : HttpRequest) → Refuses (require_csrf settings request)
    unfolding require_csrf
    require_csrf-Refuses request =
        Post-elim (λ _. Unit) E (given (request.cookies settings.csrf_cookie_name))
          (raised (forbidden_error "Invalid CSRF token")) _ (forbidden "Invalid CSRF token")
          λ a.
            Post-elim (λ _. Unit) E (given (request.headers settings.csrf_header_name))
              (raised (forbidden_error "Invalid CSRF token")) _ (forbidden "Invalid CSRF token")
              λ b. check_csrf-Refuses _ (compare_digest-Refuses a b t)

  module _ (settings : Settings) (unauthorized : (m : String) → E (unauthorized_error m)) where
    pub refresh_token_from_request-Refuses :
        (request : HttpRequest) → Refuses (refresh_token_from_request settings request)
    unfolding refresh_token_from_request
    refresh_token_from_request-Refuses request =
        Post-elim (λ _. Unit) E (given (request.cookies settings.refresh_cookie_name))
          (raised (unauthorized_error "Missing refresh token")) _
          (unauthorized "Missing refresh token") (λ a. tt)

    claims-Refuses :
        (crypto : Crypto) (o : Option TokenClaims) → Refuses (claims_or_error crypto settings o)
    claims-Refuses crypto none = unauthorized "Invalid or expired token"
    claims-Refuses crypto (some c) = tt

    subject-Post :
        (crypto : Crypto) (r : Result TokenClaims) → Refuses r → Refuses (subject crypto settings r)
    subject-Post crypto (raised e) h = h
    subject-Post crypto (ok c) h = tt

    subject-Refuses :
        (crypto : Crypto) (scopes : List String) (token : Option String) (now : ℕ)
        → Refuses (subject crypto settings (bearer_claims crypto settings scopes token now))
    unfolding bearer_claims
    subject-Refuses crypto scopes token now = subject-Post crypto _ (
        Post-elim (λ _. Unit) E (given token)
          (raised (unauthorized_error "Missing authorization token")) _
          (unauthorized "Missing authorization token")
          λ t. claims-Refuses crypto (decode_token crypto settings t scopes now))

    pub get_owner_id-Refuses :
        (crypto : Crypto) (scopes : List String) (request : HttpRequest) (token : Option String)
        (now : ℕ)
        → Refuses (get_owner_id crypto settings scopes request token now)
    unfolding get_owner_id bearer_claims get_session_id
    get_owner_id-Refuses crypto scopes request token now =
        Post-if (λ _. Unit) E settings.auth_required
          (subject crypto settings (bearer_claims crypto settings scopes token now)) _
          (subject-Refuses crypto scopes token now)
          (Post-elim (λ _. Unit) E request.session_id
            (raised (unauthorized_error "Missing session ID")) _ (unauthorized "Missing session ID")
            (λ a. tt))

    pub get_current_user_id-Refuses :
        (crypto : Crypto) (token : Option String) (now : ℕ)
        → Refuses (get_current_user_id crypto settings token now)
    unfolding get_current_user_id bearer_claims
    get_current_user_id-Refuses crypto token now = subject-Refuses crypto [] token now

  weaken : {A : Type 0} (r : Result A) {P : Type 0} → P → Post (λ a. Unit) E r → Post (λ a. P) E r
  weaken (ok a) p h = p
  weaken (raised e) p h = h

  module _ {S : Type 0} where
    pub admit-Ends :
        {G A : Type 0} (P : A → Type 0) (guard : Result G) (valid : Bool) (run : G → Action S A)
        (s : S)
        → Refuses guard
        → (valid ≡ false → E validation_error)
        → ((g : G) → Ends E P (run g) s)
        → Ends E P (admit guard valid run) s
    unfolding admit
    admit-Ends P (raised e) valid run s h v k = record { at = h }
    admit-Ends P (ok g) true run s h v k = record { at = (k g).at }
    admit-Ends P (ok g) false run s h v k = record { at = v refl }

    status-Post :
        {A : Type 0} (P : ℕ → Type 0) (f : A → ℕ) (r : Result A) (s : S)
        → Post (λ a. P (f a)) E r
        → Post P E (
            let q : Result ℕ × S = elim r [ ok a ↦ (ok (f a), s) | raised e ↦ (raised e, s) ] in
            q.0)
    status-Post P f (ok a) s h = h
    status-Post P f (raised e) s h = h

    pub with_status-Ends :
        {A : Type 0} (P : ℕ → Type 0) (f : A → ℕ) (m : Action S A) (s : S)
        → Ends E (λ a. P (f a)) m s
        → Ends E P (with_status f m) s
    unfolding with_status
    with_status-Ends P f m s h = record { at = status-Post P f (m s).0 (m s).1 h.at }

    -- A status that does not depend on the value
    pub with_status-Fails :
        {A : Type 0} (P : ℕ → Type 0) (n : ℕ) (m : Action S A) (s : S)
        → P n
        → Fails E m s
        → Ends E P (with_status (λ a. n) m) s
    with_status-Fails P n m s p h =
        with_status-Ends P (λ a. n) m s (record { at = weaken (m s).0 p h.at })

    pub limit-Ends :
        {A : Type 0} (P : A → Type 0) (item : String) (hit : Bool) (m : Action S A) (s : S)
        → E (rate_limit_exceeded item)
        → Ends E P m s
        → Ends E P (limit item hit m) s
    unfolding limit
    limit-Ends P item true m s e h = record { at = h.at }
    limit-Ends P item false m s e h = record { at = e }

    store-Post :
        {A : Type 0} (redis : Redis) (json : Json A) (key : String) (ttl stored_at : ℕ)
        (r : redis.State) (q : Result A × S)
        → Refuses q.0
        → Refuses (store redis json key ttl stored_at r q).0
    store-Post redis json key ttl stored_at r (ok a, s) h = tt
    store-Post redis json key ttl stored_at r (raised e, s) h = h

    pub redis_cache-Fails :
        {A : Type 0} (redis : Redis) (json : Json A) (key : String) (ttl read_at stored_at : ℕ)
        (m : Action S A) (s : S) (r : redis.State)
        → Fails E m s
        → Fails E (redis_cache redis json key ttl read_at stored_at m) (s, r)
    unfolding redis_cache
    redis_cache-Fails {A = A} redis json key ttl read_at stored_at m s r h = record {
      at = found (given (redis.get key read_at r));
    }
      where
        found :
            (o : Option String)
            → Refuses (
                let q : Result A × (S × redis.State) = elim o [
                  | some cached ↦ (ok (json.loads cached), (s, r))
                  | none ↦ store redis json key ttl stored_at r (m s)
                ] in
                q.0)
        found (some cached) = tt
        found none = store-Post redis json key ttl stored_at r (m s) h.at
