-- ===== src/Api/OpenApi.antt =====
-- app/core/openapi.py. The schema that FastAPI's `get_openapi` makes of the routes is an argument.
pub mod Agreement
use parcel_delivery_api.Base.{
  String, Bool, true, false, Option, none, some, List, [], ◌∷◌, ◌++◌, ◌==◌, map, if◌then◌else◌,
}
use parcel_delivery_api.Core.Settings.{Settings}
use parcel_delivery_api.Core.Text.Search.{starts_with_any}

-- One entry of an operation's `security` list: a scheme with the scopes that it asks for.
pub record Requirement : Type 0 where
  pub scheme : String
  pub scopes : List String

pub data Scheme : Type 0 where
  -- the HTTP scheme with its format, and the header that holds a key
  http : String → String → Scheme
  api_key : String → Scheme
  -- what FastAPI adds for its own security dependencies
  generated : String → Scheme

-- A value below a path: an operation with its `security`, if the key is there, or something else.
pub data PathValue : Type 0 where
  operation : Option (List Requirement) → PathValue
  metadata : PathValue

abbrev pub PathItem : Type 0
PathItem = List (String × PathValue)

pub record Schema : Type 0 where
  pub security_schemes : List (String × Scheme)
  pub paths : List (String × PathItem)

-- dict.update with one key
abbrev pub update {ℓ} : {A : Type ℓ} → String → A → List (String × A) → List (String × A)
update k v [] = (k, v) ∷ []
update k v ((k', v') ∷ rest) =
    let rest' = update k v rest in if k' == k then (k, v) ∷ rest else (k', v') ∷ rest'

abbrev pub public_path_prefixes : List String
public_path_prefixes = "/auth" ∷ "/health" ∷ "/metrics" ∷ "/parcel-types" ∷ []

abbrev pub admin_path_prefixes : List String
admin_path_prefixes = "/tasks" ∷ []

abbrev pub jwt_path_prefixes : List String
jwt_path_prefixes = "/auth/logout-all" ∷ []

abbrev require : String → Requirement
require scheme = record { scheme = scheme; scopes = [] }

-- `method.setdefault("security", []).append(security)`, for the values that are operations
abbrev pub add_security : Requirement → PathValue → PathValue
add_security r (operation none) = operation (some (r ∷ []))
add_security r (operation (some rs)) = operation (some (rs ++ r ∷ []))
add_security r metadata = metadata

abbrev pub secure_item : Option Requirement → PathItem → PathItem
secure_item none item = item
secure_item (some r) item = map (λ (key, value). (key, add_security r value)) item

module _ (settings : Settings) where
  abbrev pub auth_scheme_name : String
  auth_scheme_name = if settings.auth_required then "BearerAuth" else "SessionAuth"

  abbrev pub security_schemes : List (String × Scheme) → List (String × Scheme)
  security_schemes schemes =
      let with_bearer = update "BearerAuth" (http "bearer" "JWT") schemes in
      let with_session = update "SessionAuth" (api_key "X-Session-Id") with_bearer in
      update "AdminToken" (api_key "X-Admin-Token")
        (if settings.auth_required then with_bearer else with_session)

  -- The requirement of a path group; none where the loop goes on to the next path.
  unfoldable pub path_security : String → Option Requirement
  path_security path =
      if starts_with_any jwt_path_prefixes path
      then some (require "BearerAuth")
      else if starts_with_any admin_path_prefixes path
      then some (require "AdminToken")
      else if starts_with_any public_path_prefixes path
      then none
      else some (require auth_scheme_name)

  abbrev pub secure_path : String × PathItem → String × PathItem
  secure_path (path, item) = (path, secure_item (path_security path) item)

  -- `custom_openapi`, on `app.openapi_schema`
  unfoldable pub custom_openapi : Schema → Option Schema → Schema × Option Schema
  custom_openapi fresh (some schema) = (schema, some schema)
  custom_openapi fresh none =
      let schema : Schema = record {
        security_schemes = security_schemes fresh.security_schemes;
        paths = map secure_path fresh.paths;
      } in
      (schema, some schema)
