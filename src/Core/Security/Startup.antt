-- ===== src/Core/Security/Startup.antt =====
-- `validate_jwt_secret`, which runs before the service starts.
use Prim.Native.String.{count}
use parcel_delivery_api.Base.{◌≤◌, ◌≡◌, ◌≢◌, ◌↔◌, arith, ◌==◌, eq_iff, ◌⊎◌, inl, inr, Bool-cases}
use parcel_delivery_api.Core.Action.{ok}
use parcel_delivery_api.Core.Settings.{Settings, default_jwt_secret_key}
use parcel_delivery_api.Core.Security.{validate_jwt_secret}

-- The service starts exactly if it is not in production, or if its secret is not the published
-- default and has 32 characters at least.
pub validate_jwt_secret_iff :
    (settings : Settings)
    → (validate_jwt_secret settings ≡ ok tt) ↔ (
        (settings.environment ≢ "prod")
        ⊎ ((settings.jwt_secret_key ≢ default_jwt_secret_key)
            × (32 ≤ count settings.jwt_secret_key)))
unfolding validate_jwt_secret
validate_jwt_secret_iff settings =
    let prod = eq_iff settings.environment "prod" in
    let published = eq_iff settings.jwt_secret_key default_jwt_secret_key in
    (
      λ h. elim (Bool-cases (settings.environment == "prod")) [
        | inl e ↦ inr (ground (arith, e, published), ground (arith, e))
        | inr e ↦ inl (ground (arith, e, prod))
      ],
      λ h. elim h [
        | inl other_environment ↦ ground (arith, prod)
        | inr (private_key, long) ↦ ground (arith, published, long)
      ],
    )
