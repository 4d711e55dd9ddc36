-- ===== src/Api/Auth.antt =====
-- app/api/auth.py. `hit` is the rate limiter's answer; the other arguments after the request are the
-- times and the values drawn at random.
pub mod Cookies
pub mod Guards
use parcel_delivery_api.Base.{
  ℕ, ◌*◌, String, Bool, true, false, Option, none, some, List, [], ◌∷◌, ◌==◌, if◌then◌else◌,
}
use parcel_delivery_api.Core.Exceptions.{unauthorized_error, forbidden_error}
use parcel_delivery_api.Core.Action.{Action, Result, ok, raised, pure, raise, lift, ◌>>=◌, ◌>>◌}
use parcel_delivery_api.Core.Settings.{Settings}
use parcel_delivery_api.Core.Crypto.{Crypto}
use parcel_delivery_api.Core.Security.{Draw}
use parcel_delivery_api.Db.Sql.{Sql}
use parcel_delivery_api.Models.Database.{Database}
use parcel_delivery_api.Services.Auth.{AuthResult}
use parcel_delivery_api.Services.Auth
use parcel_delivery_api.Api.Http.{HttpRequest, Cookie, given, compare_digest, limit}

-- A reply: its status, the access token of its body, if any, and the cookies that it sets.
pub record AuthReply : Type 0 where
  pub status : ℕ
  pub access_token : Option String
  pub cookies : List Cookie

module _ (settings : Settings) where
  abbrev pub cookie_secure : Bool
  cookie_secure = settings.environment == "prod"

  abbrev pub cookie_max_age : ℕ
  cookie_max_age = settings.jwt_refresh_token_expire_days * 24 * 60 * 60

  unfoldable pub set_auth_cookies : AuthResult → List Cookie
  set_auth_cookies result =
      record {
        name = settings.refresh_cookie_name;
        value = result.refresh_token;
        max_age = cookie_max_age;
        httponly = true;
        secure = cookie_secure;
        path = "/auth";
      }
      ∷ record {
        name = settings.csrf_cookie_name;
        value = result.csrf_token;
        max_age = cookie_max_age;
        httponly = false;
        secure = cookie_secure;
        path = "/auth";
      }
      ∷ []

  abbrev deleted : String → Cookie
  deleted name = record {
    name = name;
    value = "";
    max_age = 0;
    httponly = false;
    secure = false;
    path = "/auth";
  }

  abbrev pub clear_auth_cookies : List Cookie
  clear_auth_cookies = deleted settings.refresh_cookie_name ∷ deleted settings.csrf_cookie_name ∷ []

  unfoldable pub refresh_token_from_request : HttpRequest → Result String
  refresh_token_from_request request = elim (given (request.cookies settings.refresh_cookie_name)) [
    | none ↦ raised (unauthorized_error "Missing refresh token")
    | some token ↦ ok token
  ]

  abbrev pub check_csrf : Result Bool → Result (Unit {0})
  check_csrf (raised e) = raised e
  check_csrf (ok b) = if b then ok tt else raised (forbidden_error "Invalid CSRF token")

  unfoldable pub require_csrf : HttpRequest → Result (Unit {0})
  require_csrf request = elim (given (request.cookies settings.csrf_cookie_name)) [
    | none ↦ raised (forbidden_error "Invalid CSRF token")
    | some csrf_cookie ↦ elim (given (request.headers settings.csrf_header_name)) [
      | none ↦ raised (forbidden_error "Invalid CSRF token")
      | some csrf_header ↦ check_csrf (compare_digest csrf_cookie csrf_header)
    ]
  ]

  abbrev pub token_reply : ℕ → AuthResult → AuthReply
  token_reply status result = record {
    status = status;
    access_token = some result.access_token;
    cookies = set_auth_cookies result;
  }

  abbrev pub cleared_reply : AuthReply
  cleared_reply = record { status = 204; access_token = none; cookies = clear_auth_cookies }

module _ (sql : Sql) (crypto : Crypto) (settings : Settings) where
  abbrev pub Handler : Type 0
  Handler = Action (Database sql) AuthReply

  unfoldable pub register : Bool → String → String → String → String → ℕ → Draw → Handler
  register hit email password salt id now draw = limit "10 per 1 minute" hit do
    result ← Auth.register sql crypto settings email password salt id now draw
    pure (token_reply settings 201 result)

  unfoldable pub login : Bool → String → String → ℕ → Draw → Handler
  login hit email password now draw = limit "20 per 1 minute" hit do
    result ← Auth.login sql crypto settings email password now draw
    pure (token_reply settings 200 result)

  unfoldable pub refresh : Bool → HttpRequest → ℕ → Draw → Handler
  refresh hit request now draw = limit "20 per 1 minute" hit do
    _ ← lift (require_csrf settings request)
    token ← lift (refresh_token_from_request settings request)
    result ← Auth.refresh sql crypto settings token now draw
    pure (token_reply settings 200 result)

  unfoldable pub logout : Bool → HttpRequest → ℕ → Handler
  logout hit request now = limit "20 per 1 minute" hit do
    _ ← lift (require_csrf settings request)
    token ← lift (refresh_token_from_request settings request)
    _ ← Auth.logout sql crypto settings token now
    pure (cleared_reply settings)

  -- `user_id` is what `get_current_user_id` returned.
  unfoldable pub logout_all : Bool → String → ℕ → Handler
  logout_all hit user_id now =
      limit "10 per 1 minute" hit
        do _ ← Auth.logout_all sql crypto settings user_id now; pure (cleared_reply settings)
