-- ===== src/Core/Exceptions.antt =====
-- app/core/exceptions.py, and the exceptions of other origin that reach a handler.
use parcel_delivery_api.Base.{ℕ, String}

-- The first four are the classes of the source. `integrity_error` and `data_error` are what a
-- commit raises when the database refuses a row, `value_error`, `type_error` and
-- `arithmetic_error` are Python's.
pub data Failure : Type 0 where
  business_error not_found_error unauthorized_error forbidden_error : String → Failure
  integrity_error data_error value_error type_error arithmetic_error : Failure
  runtime_error : String → Failure
  http_exception : ℕ → String → Failure
  rate_limit_exceeded : String → Failure
  validation_error : Failure
  upstream_error : Failure
