-- ===== src/Api/Application.antt =====
-- The application of app/main.py: a request of one of its routes, from the dependency of the route to
-- the status of the reply. FastAPI resolves the dependency first, then validates the request, and only
-- then calls the function, which the rate limiter wraps. A body that is not JSON, which it refuses
-- before all this, is no `Call`.
pub mod Failures
pub mod Handlers
pub mod Replies
pub mod Recalc
pub mod Admission
pub mod Parcels
use parcel_delivery_api.Base.{
  ℕ, suc, String, Bool, true, false, Option, none, some, List, if◌then◌else◌,
}
use parcel_delivery_api.Base.Rows.{count}
use parcel_delivery_api.Core.Exceptions.{validation_error, rate_limit_exceeded}
use parcel_delivery_api.Core.Action.{Action, Result, ok, raised}
use parcel_delivery_api.Core.Settings.{Settings}
use parcel_delivery_api.Core.Crypto.{Crypto}
use parcel_delivery_api.Core.Security.{Draw}
use parcel_delivery_api.Db.Sql.{Sql}
use parcel_delivery_api.Models.Parcel.{Parcel}
use parcel_delivery_api.Models.ParcelType.{ParcelType}
use parcel_delivery_api.Models.Database.{Database}
use parcel_delivery_api.Schemas.Auth.{Credentials, valid_register, valid_login}
use parcel_delivery_api.Schemas.Parcel.{DigitRules, valid_parcel, valid_pagination}
use parcel_delivery_api.Services.Parcel.{ParcelCreate, ParcelFilterParams}
use parcel_delivery_api.Tasks.Redis.{Redis}
use parcel_delivery_api.Tasks.Rates.{DecimalText}
use parcel_delivery_api.Tasks.Delivery.{Outside, unpriced, manual_recalc}
use parcel_delivery_api.Api.Http.{HttpRequest, limit}
use parcel_delivery_api.Api.Deps.{
  get_current_user_id, get_parcel_reader_owner_id, get_parcel_writer_owner_id,
  require_task_admin_token,
}
use parcel_delivery_api.Api.Auth
use parcel_delivery_api.Api.Auth.{AuthReply}
use parcel_delivery_api.Api.Cache.{
  Json, KeyText, make_cache_key, make_cache_key_no_session, redis_cache,
}
use parcel_delivery_api.Api.Calls.{
  Endpoint, register_route, login_route, refresh_route, logout_route, logout_all_route,
  parcel_types_route, register_parcel_route, list_parcels_route, get_parcel_route,
  manual_recalc_route, responses, CacheVisit, Call, register, login, refresh, logout, logout_all,
  list_types, create, list_owned, get_owned, recalc,
}
use parcel_delivery_api.Api.Parcel.{
  ParcelRead, PaginationParams, PaginatedResponse, register_parcel, list_parcels, get_parcel,
  list_parcel_types,
}

-- The dependency of a route, then the validation, then the function.
unfoldable pub admit : {S G A : Type 0} → Result G → Bool → (G → Action S A) → Action S A
admit (raised e) valid run s = (raised e, s)
admit (ok g) valid run s = if valid then run g s else (raised validation_error, s)

unfoldable pub with_status : {S A : Type 0} → (A → ℕ) → Action S A → Action S ℕ
with_status f m s =
    let (r, s') = m s in elim r [ ok a ↦ (ok (f a), s') | raised e ↦ (raised e, s') ]

-- What the code outside of the repository gives to the routes.
pub record Outer : Type 1 where
  pub sql : Sql
  pub crypto : Crypto
  pub redis : Redis
  pub text : DecimalText
  pub rules : DigitRules
  pub email_str : String → Bool
  pub keys : KeyText
  pub types_json : Json (PaginatedResponse ParcelType)
  pub parcels_json : Json (PaginatedResponse ParcelRead)
  pub parcel_json : Json Parcel
  -- the text of a route's limit in the message of the rate limiter
  pub item : Endpoint → String

module _ (outer : Outer) (settings : Settings) where
  open outer use {sql, crypto, redis, text, rules, email_str, keys, item}

  abbrev pub World : Type 0
  World = Database sql × redis.State

  -- A function that does not use Redis
  abbrev pub on_database : {A : Type 0} → Action (Database sql) A → Action World A
  on_database m (s, r) = let (a, s') = m s in (a, (s', r))

  abbrev pub auth : Action (Database sql) AuthReply → Action World ℕ
  auth m = with_status (λ reply. reply.status) (on_database m)

  abbrev open_access : Result (Unit {0})
  open_access = ok tt

  abbrev pub cached :
      {A : Type 0} → Json A → String → CacheVisit → Action (Database sql) A → Action World A
  cached json key v m =
      redis_cache redis json key settings.cache_ttl_default v.read_at v.stored_at m

  abbrev total : Action World ℕ → World → Option (Result ℕ × World)
  total m w = some (m w)

  -- What a run of the job, which the manual trigger starts, leaves.
  abbrev pub run_status :
      Database sql → Option (Result ℕ × sql.Table Parcel × redis.State) → Option (Result ℕ × World)
  run_status s none = none
  run_status s (some (ok updated, t, r)) = some (ok 202, (record s { parcels = t }, r))
  run_status s (some (raised e, t, r)) = some (raised e, (record s { parcels = t }, r))

  abbrev pub manual : Bool → ℕ → Outside → World → Option (Result ℕ × World)
  manual hit deleted_at o (s, r) =
      if hit
      then run_status s (
          manual_recalc sql redis text settings (suc (count unpriced (sql.rows s.parcels)))
            deleted_at o s.parcels r)
      else some (raised (rate_limit_exceeded (item manual_recalc_route)), (s, r))

  abbrev pub guarded_manual :
      Result (Unit {0}) → Bool → ℕ → Outside → World → Option (Result ℕ × World)
  guarded_manual (raised e) hit deleted_at o w = some (raised e, w)
  guarded_manual (ok _) hit deleted_at o w = manual hit deleted_at o w

  -- A request of a mounted route: the dependency, the validation of the body and of the parameters, in
  -- the order in which FastAPI is taken to run them, then the limiter, the cache and the handler. The
  -- status of the reply, or the failure that is answered; `none` is a run out of fuel.
  unfoldable pub answer : {e : Endpoint} → Call e → World → Option (Result ℕ × World)
  answer (register hit body salt id now draw) w =
      total
        (admit open_access (valid_register email_str body) λ _.
          auth (Auth.register sql crypto settings hit body.email body.password salt id now draw))
        w
  answer (login hit body now draw) w =
      total
        (admit open_access (valid_login email_str body)
          λ _. auth (Auth.login sql crypto settings hit body.email body.password now draw))
        w
  answer (refresh hit request now draw) w =
      total
        (admit open_access true λ _. auth (Auth.refresh sql crypto settings hit request now draw)) w
  answer (logout hit request now) w =
      total (admit open_access true λ _. auth (Auth.logout sql crypto settings hit request now)) w
  answer (logout_all hit token decoded_at now) w =
      total
        (admit (get_current_user_id crypto settings token decoded_at) true
          λ user_id. auth (Auth.logout_all sql crypto settings hit user_id now))
        w
  answer (list_types hit pagination v) w =
      total
        (admit open_access (valid_pagination pagination) λ _.
          with_status (λ page. 200)
            (limit (item parcel_types_route) hit (
              cached outer.types_json
                (make_cache_key_no_session keys settings "parcel_types" v.path v.query) v
                (list_parcel_types sql pagination))))
        w
  answer (create hit request token decoded_at body id) w =
      total
        (admit (get_parcel_writer_owner_id crypto settings request token decoded_at)
          (valid_parcel rules body)
          λ owner_id.
            with_status (λ created. 201)
              (limit (item register_parcel_route) hit
                (on_database (register_parcel sql settings body owner_id id))))
        w
  answer (list_owned hit request token decoded_at pagination filters v) w =
      total
        (admit (get_parcel_reader_owner_id crypto settings request token decoded_at)
          (valid_pagination pagination)
          λ owner_id.
            with_status (λ page. 200)
              (limit (item list_parcels_route) hit (
                cached outer.parcels_json
                  (make_cache_key keys settings "parcels" request v.path v.query) v
                  (list_parcels sql settings pagination filters owner_id))))
        w
  answer (get_owned hit request token decoded_at parcel_id v) w =
      total
        (admit (get_parcel_reader_owner_id crypto settings request token decoded_at) true
          λ owner_id.
            with_status (λ parcel. 200)
              (limit (item get_parcel_route) hit (
                cached outer.parcel_json
                  (make_cache_key keys settings "parcel" request v.path v.query) v
                  (get_parcel sql settings parcel_id owner_id))))
        w
  answer (recalc hit request deleted_at o) w =
      guarded_manual (require_task_admin_token settings (request.headers "X-Admin-Token")) hit
        deleted_at o w
