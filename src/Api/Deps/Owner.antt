-- ===== src/Api/Deps/Owner.antt =====
-- Whom the dependencies of app/api/deps.py let in.
use parcel_delivery_api.Base.{
  ℕ, ◌+◌, ◌*◌, ◌≤◌, ◌<◌, ◌≡◌, ◌↔◌, String, true, false, Option, none, some, List, ◌==◌, arith,
  eq_iff, eq_refl, if◌then◌else◌,
}
use parcel_delivery_api.Base.Rows.{All}
use parcel_delivery_api.Core.Exceptions.{unauthorized_error}
use parcel_delivery_api.Core.Action.{ok, raised}
use parcel_delivery_api.Core.Settings.{Settings}
use parcel_delivery_api.Core.Crypto.{Crypto, CryptoLaws}
use parcel_delivery_api.Core.Security.{create_access_token}
use parcel_delivery_api.Core.Text.{includes}
use parcel_delivery_api.Core.Text.RoundTrip.{IsWord}
use parcel_delivery_api.Core.Security.AccessToken.{decode_created}
use parcel_delivery_api.Api.Http.{HttpRequest, is_ascii, compare_digest}
use parcel_delivery_api.Api.Deps.{require_task_admin_token, bearer_claims, get_owner_id}

-- The manual trigger lets in exactly the requests whose header holds the configured secret, provided
-- that one is configured and is ASCII.
pub admin_iff :
    (settings : Settings) (header : Option String)
    → (require_task_admin_token settings header ≡ ok tt) ↔ (
        (header ≡ some settings.task_admin_token)
        × ((settings.task_admin_token == "") ≡ false)
        × (is_ascii settings.task_admin_token ≡ true))
unfolding require_task_admin_token compare_digest
admin_iff settings none = ground arith
admin_iff settings (some t) =
    ground (arith, eq_iff t settings.task_admin_token, eq_refl settings.task_admin_token)

module _ (crypto : Crypto) (settings : Settings) where
  -- In JWT mode an access token of the service gives its subject as the owner, from its issue until it
  -- expires, if its scopes include those that the route requires, and 401 if they do not.
  pub owner_of_created :
      CryptoLaws crypto
      → (subject role : String) (scopes : List String) (issued now : ℕ) (jti : String)
        (required : List String) (request : HttpRequest)
      → settings.auth_required ≡ true
      → All IsWord scopes
      → issued ≤ now
      → now < issued + settings.jwt_access_token_expire_min * 60
      → let token = create_access_token crypto settings subject role scopes issued jti in
        (token == "") ≡ false
        → get_owner_id crypto settings required request (some token) now ≡ (
            if includes scopes required
            then ok subject
            else raised (unauthorized_error "Invalid or expired token"))
  unfolding get_owner_id bearer_claims
  owner_of_created laws subject role scopes issued now jti required request a w le lt ne = ground (
    arith,
    a,
    ne,
    decode_created crypto settings laws subject role scopes issued now jti required w le lt,
  )
