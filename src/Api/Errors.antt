-- ===== src/Api/Errors.antt =====
-- app/api/errors.py and the handler of app/core/rate_limit.py: the reply to what a handler raises.
use Prim.Native.String.{◌++◌}
use parcel_delivery_api.Base.{ℕ, String}
use parcel_delivery_api.Core.Exceptions.{
  Failure, business_error, not_found_error, unauthorized_error, forbidden_error, http_exception,
  rate_limit_exceeded, validation_error,
}

-- The three shapes of an error's JSON: the envelope of the application, the `detail` that FastAPI
-- gives an HTTPException, and the `error` of the rate limiter. The list of details is left out.
pub data ErrorBody : Type 0 where
  envelope : String → String → ErrorBody
  detail error : String → ErrorBody

abbrev pub ErrorReply : Type 0
ErrorReply = ℕ × ErrorBody

abbrev pub error_response : String → String → ℕ → ErrorReply
error_response code message status = (status, envelope code message)

-- `register_exception_handlers`; the handler of Exception takes what no other one takes.
unfoldable pub reply_to : Failure → ErrorReply
reply_to (business_error m) = error_response "business_error" m 400
reply_to (not_found_error m) = error_response "not_found" m 404
reply_to (unauthorized_error m) = error_response "unauthorized" m 401
reply_to (forbidden_error m) = error_response "forbidden" m 403
reply_to validation_error = error_response "validation_error" "Payload validation failed" 422
reply_to (http_exception status m) = (status, detail m)
reply_to (rate_limit_exceeded m) = (429, error ("Rate limit exceeded: " ++ m))
reply_to _ = error_response "internal_error" "Unexpected server error" 500
