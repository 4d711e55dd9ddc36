-- ===== src/Api/OpenApi/Agreement.antt =====
-- The documentation against the guards of the routes, and what the patched schema holds.
use parcel_delivery_api.Base.{
  ℕ, ◌≡◌, ◌↔◌, refl, sym, ap, String, Bool, true, false, Bool-cases, ne_of_eq-false, ◌∙◌, ◌⊎◌, inl,
  inr, Option, none, some, List, [], ◌∷◌, ◌==◌,
}
use mathlib.Core.Bool.{true≢false}
use parcel_delivery_api.Base.Rows.{All, Has}
use parcel_delivery_api.Base.Rows.Members.{All-Has, Has-map}
use parcel_delivery_api.Core.Action.{Result, ok, raised}
use parcel_delivery_api.Core.Settings.{Settings}
use parcel_delivery_api.Core.Crypto.{Crypto}
use parcel_delivery_api.Api.Http.{HttpRequest}
use parcel_delivery_api.Api.Deps.{
  get_session_id, bearer_claims, get_current_user_id, get_owner_id, require_task_admin_token,
}
use parcel_delivery_api.Api.Routes.{
  Guard, open_access, reader, writer, user, admin, Route, routes, run_guard, resolved,
}
use parcel_delivery_api.Api.OpenApi.{
  Requirement, PathItem, Schema, secure_item, auth_scheme_name, path_security, secure_path,
  custom_openapi,
}

abbrev pub asks : String → Option Requirement
asks scheme = some (record { scheme = scheme; scopes = [] })

abbrev pub is_ok : {A : Type 0} → Result A → Bool
is_ok (ok a) = true
is_ok (raised e) = false

abbrev scheme_name : Option Requirement → String
scheme_name none = ""
scheme_name (some r) = r.scheme

other_scheme :
    (name : String)
    → (name == "") ≡ false
    → (name == "SessionAuth") ≡ false
    → (asks name ≡ none) ⊎ (asks name ≡ asks "SessionAuth")
    → ⊥
other_scheme name e e' (inl h) = ne_of_eq-false name "" e (ap scheme_name h)
other_scheme name e e' (inr h) = ne_of_eq-false name "SessionAuth" e' (ap scheme_name h)

module _ (settings : Settings) where
  abbrev pub scheme_of : Guard → Option Requirement
  scheme_of open_access = none
  scheme_of reader = asks (auth_scheme_name settings)
  scheme_of writer = asks (auth_scheme_name settings)
  scheme_of user = asks "BearerAuth"
  scheme_of admin = asks "AdminToken"

  all_documented : All (λ r. path_security settings r.path ≡ scheme_of r.guard) routes
  unfolding path_security
  all_documented =
      (refl, (refl, (refl, (refl, (refl, (refl, (refl, (refl, (refl, (refl, (refl, tt)))))))))))

  route_documented : (r : Route) → Has r routes → path_security settings r.path ≡ scheme_of r.guard
  route_documented r h =
      All-Has (λ x. path_security settings x.path ≡ scheme_of x.guard) routes r all_documented h

module _ (crypto : Crypto) (settings : Settings) where
  -- Whether a guard lets a request through, whatever owner it finds.
  abbrev pub passes : Guard → HttpRequest → Option String → ℕ → Bool
  passes g request token now = is_ok (run_guard crypto settings g request token now)

  owner-bare :
      (scopes : List String) (request : HttpRequest) (session : String) (now : ℕ)
      → (settings.auth_required ≡ false → request.session_id ≡ some session)
      → (is_ok (resolved (get_owner_id crypto settings scopes request none now)) ≡ true) ↔ (
          (asks (auth_scheme_name settings) ≡ none)
          ⊎ (asks (auth_scheme_name settings) ≡ asks "SessionAuth"))
  unfolding get_owner_id get_session_id bearer_claims
  owner-bare scopes request session now h = elim (Bool-cases settings.auth_required) [
    | inl e ↦
        rw e (λ x. absurd (true≢false (sym x)), λ x. absurd (other_scheme "BearerAuth" refl refl x))
    | inr e ↦ rw (e, h e) (λ _. inr refl, λ _. refl)
  ]

  admin-bare :
      (request : HttpRequest) (now : ℕ)
      → request.headers "X-Admin-Token" ≡ none
      → passes admin request none now ≡ false
  unfolding require_task_admin_token
  admin-bare request now k = elim (Bool-cases (settings.task_admin_token == "")) [
    | inl e ↦ rw e refl
    | inr e ↦ rw (e, k) refl
  ]

  guard-bare :
      (g : Guard) (request : HttpRequest) (session : String) (now : ℕ)
      → (settings.auth_required ≡ false → request.session_id ≡ some session)
      → request.headers "X-Admin-Token" ≡ none
      → (passes g request none now ≡ true)
        ↔ ((scheme_of settings g ≡ none) ⊎ (scheme_of settings g ≡ asks "SessionAuth"))
  unfolding get_current_user_id get_owner_id require_task_admin_token get_session_id bearer_claims
  guard-bare open_access request session now h k = (λ _. inl refl, λ _. refl)
  guard-bare reader request session now h k = owner-bare ("parcels:read" ∷ []) request session now h
  guard-bare writer request session now h k =
      owner-bare ("parcels:write" ∷ []) request session now h
  guard-bare user request session now h k =
      (λ x. absurd (true≢false (sym x)), λ x. absurd (other_scheme "BearerAuth" refl refl x))
  guard-bare admin request session now h k = (
    λ x. absurd (true≢false (sym x ∙ admin-bare request now k)),
    λ x. absurd (other_scheme "AdminToken" refl refl x),
  )

  -- Each path of the generated schema that is one of the service's routes is documented with the scheme
  -- of the route's guard, beside what FastAPI generated, and stays so on later calls. A request with no
  -- token and no admin header, which in session mode has the session that the middleware gave it, is
  -- let through exactly where the documentation names no scheme or the session scheme alone: so in
  -- session mode a client that sends no credential at all passes the parcel routes.
  pub documented_as_guarded :
      (fresh later : Schema) (r : Route) (item : PathItem) (request : HttpRequest)
      (session : String) (now : ℕ)
      → Has r routes
      → Has (r.path, item) fresh.paths
      → (settings.auth_required ≡ false → request.session_id ≡ some session)
      → request.headers "X-Admin-Token" ≡ none
      → let (schema, cached) = custom_openapi settings fresh none in
        Has (r.path, secure_item (scheme_of settings r.guard) item) schema.paths
        × (custom_openapi settings later cached ≡ (schema, cached))
        × ((passes r.guard request none now ≡ true) ↔ (
            (scheme_of settings r.guard ≡ none)
            ⊎ (scheme_of settings r.guard ≡ asks "SessionAuth")))
  unfolding custom_openapi
  documented_as_guarded fresh later r item request session now m k s h = (
    rw (sym (route_documented settings r m))
        (Has-map (secure_path settings) fresh.paths (r.path, item) k),
    refl,
    guard-bare r.guard request session now s h,
  )
