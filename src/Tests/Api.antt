-- ===== src/Tests/Api.antt =====
-- app/api
use parcel_delivery_api.Base.{
  ◌≡◌, refl, ◌⊎◌, String, true, Option, none, some, arith, ◌==◌, if◌then◌else◌,
}
use parcel_delivery_api.Core.Action.{ok}
use parcel_delivery_api.Core.Settings.{Settings, default_settings}
use parcel_delivery_api.Services.Auth.{AuthResult, auth_result}
use parcel_delivery_api.Db.Memory.{memory}
use parcel_delivery_api.Api.Http.{HttpRequest}
use parcel_delivery_api.Api.Auth.{set_auth_cookies, token_reply, login, refresh, logout}
use parcel_delivery_api.Api.Auth.Cookies.{ProperCookies, login_then_refresh}
use parcel_delivery_api.Api.Auth.Guards.{LetIn, change_only-LetIn}
use parcel_delivery_api.Tests.Toy.{toy}
use parcel_delivery_api.Tests.Auth.{ann, start, draw2, draw3}

abbrev entered : AuthResult
entered = auth_result memory toy default_settings ann 100 draw2

abbrev csrf_header : String → Option String
csrf_header name = if name == "X-CSRF-Token" then some "c2" else none

abbrev cookies : String → Option String
cookies name =
    if name == "refresh_token"
    then some "raw2"
    else if name == "refresh_csrf"
    then some "c2"
    else none

abbrev request : HttpRequest
request = record { cookies = cookies; headers = csrf_header; session_id = none }

proper : ProperCookies default_settings entered
proper = record { names = refl; refresh = refl; csrf = refl; ascii = refl }

login_then_refresh_example :
    let (r, s') =
      login memory toy default_settings true "ann@example.com" "correct horse" 100 draw2 start in
    (r ≡ ok (token_reply default_settings 200 entered))
    × ((refresh memory toy default_settings true request 900 draw3 s').0
        ≡ ok (
            token_reply default_settings 200
              (auth_result memory toy default_settings ann 900 draw3)))
unfolding set_auth_cookies
login_then_refresh_example =
    login_then_refresh memory toy default_settings "ann@example.com" "correct horse" 100 900 draw2
      draw3 start ann request refl refl refl (record { jti = refl; hash = refl })
      (record { jti = refl; hash = refl }) proper (refl, refl, refl) (omega arith)

change_only-LetIn_example :
    (((refresh memory toy default_settings true request 900 draw3 start).1 ≡ start)
      ⊎ LetIn memory toy default_settings true request)
    × (((logout memory toy default_settings true request 900 start).1 ≡ start)
        ⊎ LetIn memory toy default_settings true request)
change_only-LetIn_example =
    change_only-LetIn memory toy default_settings true request 900 draw3 start

abbrev with_admin : Settings
with_admin = record default_settings { task_admin_token = "sesame" }
