-- ===== src/Core/Security.antt =====
-- app/core/security.py: secrets, refresh tokens and access tokens. What the code draws at random
-- (uuid4, token_urlsafe, gensalt) and the clock are arguments.
use Prim.Native.String.{count}
pub mod AccessToken
pub mod Startup
use parcel_delivery_api.Base.{
  ℕ, ◌+◌, ◌*◌, String, Bool, true, false, Option, none, some, List, [], ◌∷◌, ltb, ◌==◌, ◌||◌, ◌&&◌,
  not, if◌then◌else◌,
}
use parcel_delivery_api.Core.Action.{Result, ok, raised}
use parcel_delivery_api.Core.Exceptions.{runtime_error, value_error}
use parcel_delivery_api.Core.Settings.{Settings, default_jwt_secret_key}
use parcel_delivery_api.Core.Crypto.{Crypto, Claim, text, other, Payload}
use parcel_delivery_api.Core.Text.{join, split, includes}

abbrev pub default_user_role : String
default_user_role = "user"

abbrev pub default_user_scopes : List String
default_user_scopes = "parcels:read" ∷ "parcels:write" ∷ []

pub record TokenClaims : Type 0 where
  pub sub : String
  pub jti : String
  pub iss : String
  pub aud : String
  pub role : String
  pub scopes : List String

-- The tokens that one call draws: `create_refresh_token` returns the first two.
pub record Draw : Type 0 where
  pub raw_token : String
  pub jti : String
  pub csrf_token : String
  pub family_id : String
  pub access_jti : String

unfoldable pub validate_jwt_secret : Settings → Result (Unit {0})
validate_jwt_secret settings =
    if not (settings.environment == "prod")
    then ok tt
    else if settings.jwt_secret_key == default_jwt_secret_key
    then raised (runtime_error "JWT_SECRET_KEY must be changed in production")
    else if ltb (count settings.jwt_secret_key) 32
    then raised (runtime_error "JWT_SECRET_KEY must be at least 32 characters in production")
    else ok tt

module _ (crypto : Crypto) where
  open crypto use {sha256, hashpw, checkpw, jwt_encode, jwt_decode}

  unfoldable pub hash_password : String → String → Result String
  hash_password password salt = elim (hashpw password salt) [
    | none ↦ raised value_error
    | some hashed ↦ ok hashed
  ]

  unfoldable pub verify_password : String → String → Result Bool
  verify_password plain hashed = elim (checkpw plain hashed) [
    | none ↦ raised value_error
    | some b ↦ ok b
  ]

  abbrev pub hash_token : String → String
  hash_token token = sha256 token

  module _ (settings : Settings) where
    abbrev pub access_payload : String → String → List String → ℕ → String → Payload
    access_payload subject role scopes now jti = record {
      sub = some (text subject);
      exp = some (now + settings.jwt_access_token_expire_min * 60);
      iat = some now;
      nbf = some now;
      jti = some (text jti);
      iss = some (text settings.jwt_issuer);
      aud = some (text settings.jwt_audience);
      role = some (text role);
      scope = some (text (join scopes));
    }

    unfoldable pub create_access_token : String → String → List String → ℕ → String → String
    create_access_token subject role scopes now jti =
        jwt_encode (access_payload subject role scopes now jti) settings.jwt_secret_key
          settings.jwt_algorithm

    -- `payload.get(key)` with the test `isinstance(value, str)`
    abbrev as_text : Option Claim → Option String
    as_text none = none
    as_text (some (text s)) = some s
    as_text (some other) = none

    -- `payload.get("scope", "")`
    abbrev scope_text : Option Claim → Option String
    scope_text none = some ""
    scope_text (some c) = as_text (some c)

    abbrev check_scopes : List String → TokenClaims → Option TokenClaims
    check_scopes required claims = if includes claims.scopes required then some claims else none

    unfoldable pub claims_of : List String → Payload → Option TokenClaims
    claims_of required p = elim (as_text p.sub) [
      | none ↦ none
      | some sub ↦ elim (as_text p.jti) [
        | none ↦ none
        | some jti ↦ elim (as_text p.iss) [
          | none ↦ none
          | some iss ↦ elim (as_text p.aud) [
            | none ↦ none
            | some aud ↦ elim (as_text p.role) [
              | none ↦ none
              | some role ↦ elim (scope_text p.scope) [
                | none ↦ none
                | some scope_value ↦ check_scopes required (record {
                  sub = sub;
                  jti = jti;
                  iss = iss;
                  aud = aud;
                  role = role;
                  scopes = split scope_value;
                })
              ]
            ]
          ]
        ]
      ]
    ]

    unfoldable pub decode_token : String → List String → ℕ → Option TokenClaims
    decode_token token required now =
        elim (jwt_decode token settings.jwt_secret_key settings.jwt_algorithm settings.jwt_issuer
          settings.jwt_audience now) [ none ↦ none | some payload ↦ claims_of required payload ]
