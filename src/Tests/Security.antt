-- ===== src/Tests/Security.antt =====
-- app/core/security.py
use parcel_delivery_api.Base.{◌≡◌, refl, String, some, [], ◌∷◌, arith}
use parcel_delivery_api.Core.Settings.{Settings, default_settings}
use parcel_delivery_api.Core.Security.{
  TokenClaims, create_access_token, decode_token, default_user_scopes,
}
use parcel_delivery_api.Core.Security.AccessToken.{decode_created}
use parcel_delivery_api.Tests.Toy.{toy, toy_laws}

abbrev token : String
token = create_access_token toy default_settings "u1" "user" default_user_scopes 1000 "j1"

abbrev claims : TokenClaims
claims = record {
  sub = "u1";
  jti = "j1";
  iss = "parcel-delivery-api";
  aud = "parcel-delivery-clients";
  role = "user";
  scopes = default_user_scopes;
}

decode_created_example :
    decode_token toy default_settings token ("parcels:read" ∷ []) 1899 ≡ some claims
decode_created_example =
    decode_created toy default_settings toy_laws "u1" "user" default_user_scopes 1000 1899 "j1"
      ("parcels:read" ∷ []) ((refl, refl), ((refl, refl), tt)) (omega arith) (omega arith)

token-claims : decode_token toy default_settings token ("parcels:read" ∷ []) 1000 ≡ some claims
token-claims =
    decode_created toy default_settings toy_laws "u1" "user" default_user_scopes 1000 1000 "j1"
      ("parcels:read" ∷ []) ((refl, refl), ((refl, refl), tt)) (omega arith) (omega arith)

abbrev short_secret : Settings
short_secret = record default_settings { jwt_secret_key = "secret" }
