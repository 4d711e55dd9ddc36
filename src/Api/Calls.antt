-- ===== src/Api/Calls.antt =====
-- The routes of app/main.py, and what a request of each brings with it.
use parcel_delivery_api.Base.{ℕ, String, Bool, Option, List}
use parcel_delivery_api.Core.Security.{Draw}
use parcel_delivery_api.Schemas.Auth.{Credentials}
use parcel_delivery_api.Services.Parcel.{ParcelCreate, ParcelFilterParams}
use parcel_delivery_api.Tasks.Delivery.{Outside}
use parcel_delivery_api.Api.Http.{HttpRequest}
use parcel_delivery_api.Api.Parcel.{PaginationParams}
use parcel_delivery_api.Api.Documented.{
  Response, register_responses, login_responses, refresh_responses, logout_responses,
  logout_all_responses, parcel_types_responses, register_parcel_responses, list_parcels_responses,
  get_parcel_responses, manual_recalc_responses,
}

-- The routes but for /health.
pub data Endpoint : Type 0 where
  register_route login_route refresh_route logout_route logout_all_route : Endpoint
  parcel_types_route register_parcel_route list_parcels_route get_parcel_route : Endpoint
  manual_recalc_route : Endpoint

abbrev pub responses : Endpoint → List Response
responses register_route = register_responses
responses login_route = login_responses
responses refresh_route = refresh_responses
responses logout_route = logout_responses
responses logout_all_route = logout_all_responses
responses parcel_types_route = parcel_types_responses
responses register_parcel_route = register_parcel_responses
responses list_parcels_route = list_parcels_responses
responses get_parcel_route = get_parcel_responses
responses manual_recalc_route = manual_recalc_responses

-- What the two commands of the cache need: the path and query, and when they run.
pub record CacheVisit : Type 0 where
  pub path : String
  pub query : String
  pub read_at : ℕ
  pub stored_at : ℕ

-- A request as FastAPI hands it to the function of a route, with the rate limiter's answer, the bearer
-- token that `OAuth2PasswordBearer` found, the times, and the values that are drawn.
pub data Call : Endpoint → Type 0 where
  register :
      (hit : Bool) (body : Credentials) (salt id : String) (now : ℕ) (draw : Draw)
      → Call register_route
  login : (hit : Bool) (body : Credentials) (now : ℕ) (draw : Draw) → Call login_route
  refresh : (hit : Bool) (request : HttpRequest) (now : ℕ) (draw : Draw) → Call refresh_route
  logout : (hit : Bool) (request : HttpRequest) (now : ℕ) → Call logout_route
  logout_all : (hit : Bool) (token : Option String) (decoded_at now : ℕ) → Call logout_all_route
  list_types :
      (hit : Bool) (pagination : PaginationParams) (v : CacheVisit) → Call parcel_types_route
  create :
      (hit : Bool) (request : HttpRequest) (token : Option String) (decoded_at : ℕ)
      (body : ParcelCreate) (id : String)
      → Call register_parcel_route
  list_owned :
      (hit : Bool) (request : HttpRequest) (token : Option String) (decoded_at : ℕ)
      (pagination : PaginationParams) (filters : ParcelFilterParams) (v : CacheVisit)
      → Call list_parcels_route
  get_owned :
      (hit : Bool) (request : HttpRequest) (token : Option String) (decoded_at : ℕ)
      (parcel_id : String) (v : CacheVisit)
      → Call get_parcel_route
  recalc :
      (hit : Bool) (request : HttpRequest) (deleted_at : ℕ) (o : Outside) → Call manual_recalc_route
