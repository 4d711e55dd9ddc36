-- ===== src/Api/Auth/Guards.antt =====
-- What stands before the service calls of POST /auth/refresh and /auth/logout.
use parcel_delivery_api.Base.{ℕ, ◌≡◌, ◌⊎◌, String, Bool, true, some, arith, ◌==◌}
use parcel_delivery_api.Core.Action.{ok}
use parcel_delivery_api.Core.Settings.{Settings}
use parcel_delivery_api.Core.Crypto.{Crypto}
use parcel_delivery_api.Core.Security.{Draw}
use parcel_delivery_api.Db.Sql.{Sql}
use parcel_delivery_api.Models.Database.{Database}
use parcel_delivery_api.Api.Http.{HttpRequest, limit, compare_digest}
use parcel_delivery_api.Api.Auth.{refresh_token_from_request, require_csrf, refresh, logout}

module _ (sql : Sql) (crypto : Crypto) (settings : Settings) where
  -- The request was within its rate limit, and had a valid CSRF token and a refresh token.
  abbrev pub LetIn : Bool → HttpRequest → Type 0
  LetIn hit request =
      (hit ≡ true)
      × (require_csrf settings request ≡ ok tt)
      × (token : String) × (refresh_token_from_request settings request ≡ ok token)

  -- The CSRF check passes only a request whose cookie and header hold the same text.
  pub require_csrf-same :
      (request : HttpRequest)
      → require_csrf settings request ≡ ok tt
      → (a : String) × (b : String) × (request.cookies settings.csrf_cookie_name ≡ some a)
        × (request.headers settings.csrf_header_name ≡ some b)
        × ((a == b) ≡ true)
  unfolding require_csrf compare_digest
  require_csrf-same request h = ground arith

  -- /auth/refresh and /auth/logout leave the database alone unless the request was within its rate
  -- limit, its CSRF cookie and header agree, and it has a refresh token.
  pub change_only-LetIn :
      (hit : Bool) (request : HttpRequest) (now : ℕ) (draw : Draw) (s : Database sql)
      → (((refresh sql crypto settings hit request now draw s).1 ≡ s) ⊎ LetIn hit request)
        × (((logout sql crypto settings hit request now s).1 ≡ s) ⊎ LetIn hit request)
  unfolding refresh logout limit
  change_only-LetIn hit request now draw s = ground arith
