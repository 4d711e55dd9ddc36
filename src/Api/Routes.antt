-- ===== src/Api/Routes.antt =====
-- The routes that app/main.py puts together, with the dependency that FastAPI resolves before each.
use parcel_delivery_api.Base.{ℕ, String, Option, none, some, List, [], ◌∷◌, ◌++◌}
use parcel_delivery_api.Core.Action.{Result, ok, raised}
use parcel_delivery_api.Core.Settings.{Settings}
use parcel_delivery_api.Core.Crypto.{Crypto}
use parcel_delivery_api.Api.Http.{HttpRequest}
use parcel_delivery_api.Api.Deps.{
  get_current_user_id, get_parcel_reader_owner_id, get_parcel_writer_owner_id,
  require_task_admin_token,
}

-- What a route has in a `Depends` besides the session: nothing, one of the two owner dependencies,
-- `get_current_user_id`, or `require_task_admin_token`.
pub data Guard : Type 0 where
  open_access reader writer user admin : Guard

pub record Route : Type 0 where
  pub method : String
  pub path : String
  pub guard : Guard

abbrev route : String → String → Guard → Route
route method path guard = record { method = method; path = path; guard = guard }

abbrev auth_router : List Route
auth_router =
    route "POST" "/auth/register" open_access
    ∷ route "POST" "/auth/login" open_access
    ∷ route "POST" "/auth/refresh" open_access
    ∷ route "POST" "/auth/logout" open_access
    ∷ route "POST" "/auth/logout-all" user
    ∷ []

-- The routers in the order of app/main.py
abbrev pub routes : List Route
routes =
    route "GET" "/health" open_access ∷ auth_router
    ++ route "GET" "/parcel-types" open_access
      ∷ route "POST" "/parcels" writer
      ∷ route "GET" "/parcels" reader
      ∷ route "GET" "/parcels/{parcel_id}" reader
      ∷ route "POST" "/tasks/recalc-delivery" admin
      ∷ []

abbrev pub resolved : Result String → Result (Option String)
resolved (ok s) = ok (some s)
resolved (raised e) = raised e

abbrev pub allowed : Result (Unit {0}) → Result (Option String)
allowed (ok _) = ok none
allowed (raised e) = raised e

-- What a handler is given by its guard, if the guard lets the request through.
module _ (crypto : Crypto) (settings : Settings) where
  abbrev pub run_guard : Guard → HttpRequest → Option String → ℕ → Result (Option String)
  run_guard open_access request token now = ok none
  run_guard reader request token now =
      resolved (get_parcel_reader_owner_id crypto settings request token now)
  run_guard writer request token now =
      resolved (get_parcel_writer_owner_id crypto settings request token now)
  run_guard user request token now = resolved (get_current_user_id crypto settings token now)
  run_guard admin request token now =
      allowed (require_task_admin_token settings (request.headers "X-Admin-Token"))
