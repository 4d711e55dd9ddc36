-- ===== src/Api/Auth/Cookies.antt =====
-- The cookies of app/api/auth.py, from the reply that sets them to the request that brings them back.
use parcel_delivery_api.Base.{
  ℕ, ◌+◌, ◌*◌, ◌<◌, ◌≡◌, refl, ap, String, true, false, some, ◌==◌, arith, eq_refl,
}
use parcel_delivery_api.Core.Action.{ok}
use parcel_delivery_api.Core.Settings.{Settings}
use parcel_delivery_api.Core.Crypto.{Crypto}
use parcel_delivery_api.Core.Security.{Draw, hash_token}
use parcel_delivery_api.Db.Sql.{Sql}
use parcel_delivery_api.Db.Laws.{scalar-add}
use parcel_delivery_api.Models.User.{User}
use parcel_delivery_api.Models.Database.{Database}
use parcel_delivery_api.Services.Auth
use parcel_delivery_api.Services.Auth.{
  AuthResult, has_hash, has_id, has_email, new_token, auth_result, refresh_expires_at,
}
use parcel_delivery_api.Services.Auth.Refresh.{Usable, IsFresh, refresh-ok}
use parcel_delivery_api.Services.Auth.Login.{login-ok, after_login}
use parcel_delivery_api.Api.Http.{HttpRequest, jar, is_ascii, compare_digest, limit}
use parcel_delivery_api.Api.Auth.{
  set_auth_cookies, refresh_token_from_request, require_csrf, token_reply, login, refresh,
}

-- The request of a browser that has the cookies of a result and repeats the CSRF token in its header.
abbrev pub ReturnsCookies : Settings → AuthResult → HttpRequest → Type 0
ReturnsCookies settings result request =
    (request.cookies settings.refresh_cookie_name
      ≡ jar (set_auth_cookies settings result) settings.refresh_cookie_name)
    × (request.cookies settings.csrf_cookie_name
        ≡ jar (set_auth_cookies settings result) settings.csrf_cookie_name)
    × (request.headers settings.csrf_header_name ≡ some result.csrf_token)

-- The values of the two cookies are not empty, the CSRF token is ASCII, and their names differ.
pub record ProperCookies (settings : Settings) (result : AuthResult) : Type 0 where
  pub names : (settings.refresh_cookie_name == settings.csrf_cookie_name) ≡ false
  pub refresh : (result.refresh_token == "") ≡ false
  pub csrf : (result.csrf_token == "") ≡ false
  pub ascii : is_ascii result.csrf_token ≡ true

-- A request that brings back the cookies of a result, with the CSRF token in the header, passes the
-- CSRF check and carries the refresh token of that result.
pub cookies_come_back :
    (settings : Settings) (result : AuthResult) (request : HttpRequest)
    → ProperCookies settings result
    → ReturnsCookies settings result request
    → (require_csrf settings request ≡ ok tt)
      × (refresh_token_from_request settings request ≡ ok result.refresh_token)
unfolding set_auth_cookies refresh_token_from_request require_csrf compare_digest
cookies_come_back settings result request p (c, d, h) = (
  ground (
    arith,
    d,
    h,
    p.names,
    p.csrf,
    p.ascii,
    eq_refl settings.csrf_cookie_name,
    eq_refl result.csrf_token,
  ),
  ground (arith, c, p.refresh, eq_refl settings.refresh_cookie_name),
)

module _ (sql : Sql) (crypto : Crypto) (settings : Settings) where
  open sql use {scalar}

  login-reply :
      (email password : String) (now : ℕ) (draw : Draw) (s s' : Database sql) (result : AuthResult)
      → Auth.login sql crypto settings email password now draw s ≡ (ok result, s')
      → login sql crypto settings true email password now draw s
        ≡ (ok (token_reply settings 200 result), s')
  unfolding login limit
  login-reply email password now draw s s' result h = ground (arith, h)

  refresh-reply :
      (request : HttpRequest) (token : String) (now : ℕ) (draw : Draw) (s s' : Database sql)
      (result : AuthResult)
      → require_csrf settings request ≡ ok tt
      → refresh_token_from_request settings request ≡ ok token
      → Auth.refresh sql crypto settings token now draw s ≡ (ok result, s')
      → refresh sql crypto settings true request now draw s
        ≡ (ok (token_reply settings 200 result), s')
  unfolding refresh limit
  refresh-reply request token now draw s s' result a b h = ground (arith, a, b, h)

  -- After a login within its rate limit, with the password of a stored user, a request to
  -- /auth/refresh that is within its own rate limit, returns the cookies that the login set, repeats
  -- the CSRF cookie in its X-CSRF-Token header and arrives before the refresh token expires, gets new
  -- credentials of the same user and their cookies; where the cookies' values are not empty, and the
  -- jti and the hash that each of the two requests draws are not stored yet.
  pub login_then_refresh :
      (email password : String) (now later : ℕ) (draw draw' : Draw) (s : Database sql) (u : User)
      (request : HttpRequest)
      → scalar (has_email email) s.users ≡ some u
      → scalar (has_id u.id) s.users ≡ some u
      → crypto.checkpw password u.hashed_password ≡ some true
      → IsFresh sql crypto settings draw s
      → IsFresh sql crypto settings draw' (after_login sql crypto settings s u now draw)
      → ProperCookies settings (auth_result sql crypto settings u now draw)
      → ReturnsCookies settings (auth_result sql crypto settings u now draw) request
      → later < now + settings.jwt_refresh_token_expire_days * 86400
      → let (r, s') = login sql crypto settings true email password now draw s in
        (r ≡ ok (token_reply settings 200 (auth_result sql crypto settings u now draw)))
        × ((refresh sql crypto settings true request later draw' s').0
            ≡ ok (token_reply settings 200 (auth_result sql crypto settings u later draw')))
  unfolding refresh_expires_at
  login_then_refresh email password now later draw draw' s u request e i c f f' p q lt =
      let s1 = after_login sql crypto settings s u now draw in
      let t = new_token sql crypto settings u draw.family_id now draw in
      let (a, b) =
        cookies_come_back settings (auth_result sql crypto settings u now draw) request p q in
      let usable : Usable sql crypto settings draw.raw_token later s1 t u = record {
        found =
            scalar-add sql (has_hash (hash_token crypto draw.raw_token)) t s.refresh_tokens
              (eq_refl (hash_token crypto draw.raw_token)) f.hash;
        live = refl;
        unexpired = ground arith;
        owner = i;
      } in
      let entered = login-ok sql crypto settings email password now draw s u e c f in
      let done = refresh-ok sql crypto settings draw.raw_token later draw' s1 t u usable f' in
      rw
        (login-reply email password now draw s s1 (auth_result sql crypto settings u now draw)
          entered)
        (
          refl,
          ap (λ q. q.0)
              (refresh-reply request draw.raw_token later draw' s1 _
                (auth_result sql crypto settings u later draw') a b done),
        )
