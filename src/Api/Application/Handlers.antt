-- ===== src/Api/Application/Handlers.antt =====
-- What the handlers of app/api/auth.py reply.
use parcel_delivery_api.Base.{ℕ, ◌≡◌, String, Bool, true, List}
use parcel_delivery_api.Core.Action.{Action}
use parcel_delivery_api.Core.Action.Ends.{Ends, Ends-bind, Ends-pure}
use parcel_delivery_api.Core.Settings.{Settings}
use parcel_delivery_api.Core.Security.{Draw}
use parcel_delivery_api.Models.Database.{Database}
use parcel_delivery_api.Api.Http.{HttpRequest}
use parcel_delivery_api.Api.Auth
use parcel_delivery_api.Api.Errors.{reply_to}
use parcel_delivery_api.Api.Auth.{AuthReply}
use parcel_delivery_api.Api.Documented.{
  Response, lists_success, register_responses, login_responses, refresh_responses, logout_responses,
  logout_all_responses,
}
use parcel_delivery_api.Api.Application.{Outer}
use parcel_delivery_api.Api.Application.Failures.{
  Accounted, lifted, register-Fails, login-Fails, refresh-Fails, logout-Fails, logout_all-Fails,
}
use parcel_delivery_api.Api.Application.Admission.{
  limit-Ends, require_csrf-Refuses, refresh_token_from_request-Refuses,
}

module _ (outer : Outer) (settings : Settings) where
  open outer use {sql, crypto}

  abbrev pub Replies : List Response → Action (Database sql) AuthReply → Database sql → Type 0
  Replies docs m s = Ends (Accounted docs) (λ reply. lists_success docs reply.status ≡ true) m s

  pub register-Replies :
      (hit : Bool) (email password salt id : String) (now : ℕ) (draw : Draw) (s : Database sql)
      → Replies register_responses
          (Auth.register sql crypto settings hit email password salt id now draw)
          s
  unfolding Auth.register Accounted reply_to
  register-Replies hit email password salt id now draw s =
      search (limit-Ends, Ends-bind, Ends-pure, register-Fails)

  pub login-Replies :
      (hit : Bool) (email password : String) (now : ℕ) (draw : Draw) (s : Database sql)
      → Replies login_responses (Auth.login sql crypto settings hit email password now draw) s
  unfolding Auth.login Accounted reply_to
  login-Replies hit email password now draw s =
      search (limit-Ends, Ends-bind, Ends-pure, login-Fails)

  pub refresh-Replies :
      (hit : Bool) (request : HttpRequest) (now : ℕ) (draw : Draw) (s : Database sql)
      → Replies refresh_responses (Auth.refresh sql crypto settings hit request now draw) s
  unfolding Auth.refresh Accounted reply_to
  refresh-Replies hit request now draw s = search (
    limit-Ends, Ends-bind, Ends-pure, lifted, require_csrf-Refuses,
    refresh_token_from_request-Refuses, refresh-Fails,
  )

  pub logout-Replies :
      (hit : Bool) (request : HttpRequest) (now : ℕ) (s : Database sql)
      → Replies logout_responses (Auth.logout sql crypto settings hit request now) s
  unfolding Auth.logout Accounted reply_to
  logout-Replies hit request now s = search (
    limit-Ends, Ends-bind, Ends-pure, lifted, require_csrf-Refuses,
    refresh_token_from_request-Refuses, logout-Fails,
  )

  pub logout_all-Replies :
      (hit : Bool) (user_id : String) (now : ℕ) (s : Database sql)
      → Replies logout_all_responses (Auth.logout_all sql crypto settings hit user_id now) s
  unfolding Auth.logout_all Accounted reply_to
  logout_all-Replies hit user_id now s = search (limit-Ends, Ends-bind, Ends-pure, logout_all-Fails)
