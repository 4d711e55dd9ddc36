-- ===== src/Core/Settings.antt =====
-- app/core/settings.py: the settings that the modelled code reads, under their names, with the
-- defaults of the source. Times are in the unit of the source (seconds, minutes, days).
use parcel_delivery_api.Base.{ℕ, String, Bool, true}
use parcel_delivery_api.Core.Decimal.{Decimal, decimal}

abbrev pub default_jwt_secret_key : String
default_jwt_secret_key = "change-me-in-production-use-32-bytes-minimum"

pub record Settings : Type 0 where
  pub environment : String
  pub delivery_weight_coeff : Decimal
  pub delivery_value_coeff : Decimal
  pub delivery_batch_size : ℕ
  pub delivery_lock_ttl : ℕ
  pub delivery_job_interval_min : ℕ
  pub cache_ttl_default : ℕ
  pub cache_ttl_rate : ℕ
  pub jwt_secret_key : String
  pub jwt_algorithm : String
  pub jwt_access_token_expire_min : ℕ
  pub jwt_refresh_token_expire_days : ℕ
  pub jwt_issuer : String
  pub jwt_audience : String
  pub refresh_cookie_name : String
  pub csrf_cookie_name : String
  pub csrf_header_name : String
  pub auth_required : Bool
  pub task_admin_token : String

-- The values of a process with no environment variable and no `.env`.
abbrev pub default_settings : Settings
default_settings = record {
  environment = "prod";
  delivery_weight_coeff = decimal 5 1;
  delivery_value_coeff = decimal 1 2;
  delivery_batch_size = 500;
  delivery_lock_ttl = 330;
  delivery_job_interval_min = 5;
  cache_ttl_default = 60;
  cache_ttl_rate = 600;
  jwt_secret_key = default_jwt_secret_key;
  jwt_algorithm = "HS256";
  jwt_access_token_expire_min = 15;
  jwt_refresh_token_expire_days = 30;
  jwt_issuer = "parcel-delivery-api";
  jwt_audience = "parcel-delivery-clients";
  refresh_cookie_name = "refresh_token";
  csrf_cookie_name = "refresh_csrf";
  csrf_header_name = "X-CSRF-Token";
  auth_required = true;
  task_admin_token = "";
}
