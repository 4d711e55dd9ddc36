-- ===== src/Api/Documented.antt =====
-- The `responses` of the routes in app/api and app/tasks/routes.py, with the examples of
-- app/api/examples.py: the statuses that the documentation promises, and the shape of each error.
use parcel_delivery_api.Base.{
  ℕ, Bool, true, false, Option, none, some, List, [], ◌∷◌, ◌==◌, ◌&&◌, ◌||◌, leb,
}
use parcel_delivery_api.Api.Errors.{ErrorBody, envelope, detail, error, ErrorReply}

-- A documented response: its status, and the example of its body if it is an error.
pub record Response : Type 0 where
  pub status : ℕ
  pub example : Option ErrorBody

abbrev success : ℕ → Response
success n = record { status = n; example = none }

abbrev failure : ℕ → ErrorBody → Response
failure n body = record { status = n; example = some body }

abbrev validation_error_example : ErrorBody
validation_error_example = envelope "validation_error" "Payload validation failed"

abbrev unauthorized_error_example : ErrorBody
unauthorized_error_example = envelope "unauthorized" "Missing authorization token"

abbrev forbidden_error_example : ErrorBody
forbidden_error_example = envelope "forbidden" "Manual task trigger is disabled"

abbrev business_error_example : ErrorBody
business_error_example = envelope "business_error" "Unknown parcel type"

abbrev parcel_forbidden_example : ErrorBody
parcel_forbidden_example = detail "Forbidden"

abbrev pub register_responses : List Response
register_responses =
    success 201
    ∷ failure 400 (envelope "business_error" "Email already registered")
    ∷ failure 422 validation_error_example
    ∷ []

abbrev pub login_responses : List Response
login_responses =
    success 200 ∷ failure 401 unauthorized_error_example ∷ failure 422 validation_error_example ∷ []

abbrev pub refresh_responses : List Response
refresh_responses =
    success 200 ∷ failure 401 unauthorized_error_example ∷ failure 403 forbidden_error_example ∷ []

-- `status_code=204` of the two logout routes
abbrev pub logout_responses : List Response
logout_responses =
    success 204 ∷ failure 401 unauthorized_error_example ∷ failure 403 forbidden_error_example ∷ []

abbrev pub logout_all_responses : List Response
logout_all_responses = success 204 ∷ failure 401 unauthorized_error_example ∷ []

abbrev pub parcel_types_responses : List Response
parcel_types_responses = success 200 ∷ failure 422 validation_error_example ∷ []

abbrev pub register_parcel_responses : List Response
register_parcel_responses =
    success 201
    ∷ failure 400 business_error_example
    ∷ failure 401 unauthorized_error_example
    ∷ failure 422 validation_error_example
    ∷ []

abbrev pub list_parcels_responses : List Response
list_parcels_responses =
    success 200 ∷ failure 401 unauthorized_error_example ∷ failure 422 validation_error_example ∷ []

abbrev pub get_parcel_responses : List Response
get_parcel_responses =
    success 200
    ∷ failure 401 unauthorized_error_example
    ∷ failure 403 parcel_forbidden_example
    ∷ failure 404 (detail "Not found")
    ∷ []

abbrev pub manual_recalc_responses : List Response
manual_recalc_responses = success 202 ∷ failure 403 forbidden_error_example ∷ []

abbrev same_number : ℕ → ℕ → Bool
same_number m n = leb m n && leb n m

-- An error is like an example if it has the same code, or the same `detail`.
abbrev like : ErrorBody → ErrorBody → Bool
like (envelope code message) (envelope code' message') = code == code'
like (detail message) (detail message') = message == message'
like _ _ = false

abbrev like_example : Option ErrorBody → ErrorBody → Bool
like_example none body = false
like_example (some example) body = like example body

abbrev pub lists_error : List Response → ErrorReply → Bool
lists_error [] reply = false
lists_error (r ∷ rs) (status, body) =
    (same_number r.status status && like_example r.example body) || lists_error rs (status, body)

abbrev is_success : Option ErrorBody → Bool
is_success none = true
is_success (some _) = false

abbrev pub lists_success : List Response → ℕ → Bool
lists_success [] status = false
lists_success (r ∷ rs) status =
    (same_number r.status status && is_success r.example) || lists_success rs status

-- The two replies that no route lists: the rate limiter's, and the one to an unexpected exception.
abbrev pub is_unlisted : ErrorReply → Bool
is_unlisted (status, envelope code message) = same_number status 500 && (code == "internal_error")
is_unlisted (status, detail message) = false
is_unlisted (status, error message) = same_number status 429
