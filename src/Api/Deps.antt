-- ===== src/Api/Deps.antt =====
-- app/api/deps.py. `token` is what `OAuth2PasswordBearer` found; `now` is when it is decoded.
pub mod Owner
use parcel_delivery_api.Base.{
  ℕ, String, Bool, true, false, Option, none, some, List, [], ◌∷◌, ◌==◌, if◌then◌else◌,
}
use parcel_delivery_api.Core.Exceptions.{unauthorized_error, forbidden_error}
use parcel_delivery_api.Core.Action.{Result, ok, raised}
use parcel_delivery_api.Core.Settings.{Settings}
use parcel_delivery_api.Core.Crypto.{Crypto}
use parcel_delivery_api.Core.Security.{TokenClaims, decode_token}
use parcel_delivery_api.Api.Http.{HttpRequest, given, compare_digest}

unfoldable pub get_session_id : HttpRequest → Result String
get_session_id request = elim request.session_id [
  | none ↦ raised (unauthorized_error "Missing session ID")
  | some s ↦ ok s
]

module _ (settings : Settings) where
  abbrev pub check_digest : Result Bool → Result (Unit {0})
  check_digest (raised e) = raised e
  check_digest (ok b) = if b then ok tt else raised (forbidden_error "Invalid admin token")

  unfoldable pub require_task_admin_token : Option String → Result (Unit {0})
  require_task_admin_token x_admin_token =
      if settings.task_admin_token == ""
      then raised (forbidden_error "Manual task trigger is disabled")
      else elim (given x_admin_token) [
        | none ↦ raised (forbidden_error "Invalid admin token")
        | some t ↦ check_digest (compare_digest t settings.task_admin_token)
      ]

module _ (crypto : Crypto) (settings : Settings) where
  abbrev pub claims_or_error : Option TokenClaims → Result TokenClaims
  claims_or_error none = raised (unauthorized_error "Invalid or expired token")
  claims_or_error (some claims) = ok claims

  unfoldable pub bearer_claims : List String → Option String → ℕ → Result TokenClaims
  bearer_claims scopes token now = elim (given token) [
    | none ↦ raised (unauthorized_error "Missing authorization token")
    | some t ↦ claims_or_error (decode_token crypto settings t scopes now)
  ]

  abbrev pub subject : Result TokenClaims → Result String
  subject (raised e) = raised e
  subject (ok claims) = ok claims.sub

  abbrev pub get_current_claims : Option String → ℕ → Result TokenClaims
  get_current_claims token now = bearer_claims [] token now

  unfoldable pub get_current_user_id : Option String → ℕ → Result String
  unfolding bearer_claims
  get_current_user_id token now = subject (bearer_claims [] token now)

  unfoldable pub get_owner_id : List String → HttpRequest → Option String → ℕ → Result String
  unfolding bearer_claims get_session_id
  get_owner_id required_scopes request token now =
      if settings.auth_required
      then subject (bearer_claims required_scopes token now)
      else get_session_id request

  abbrev pub get_parcel_reader_owner_id : HttpRequest → Option String → ℕ → Result String
  get_parcel_reader_owner_id = get_owner_id ("parcels:read" ∷ [])

  abbrev pub get_parcel_writer_owner_id : HttpRequest → Option String → ℕ → Result String
  get_parcel_writer_owner_id = get_owner_id ("parcels:write" ∷ [])
