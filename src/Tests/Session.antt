-- ===== src/Tests/Session.antt =====
-- app/middlewares/session.py and app/core/openapi.py
use parcel_delivery_api.Base.{
  ◌≡◌, ◌↔◌, ◌⊎◌, refl, inl, inr, String, true, false, none, some, [], ◌∷◌, ◌==◌, if◌then◌else◌,
}
use parcel_delivery_api.Base.Rows.{Has}
use parcel_delivery_api.Core.Action.{ok}
use parcel_delivery_api.Core.Decimal.{le_zero, negative_value}
use parcel_delivery_api.Core.Uuid.{is_uuid, hex_padded, uuid_text}
use parcel_delivery_api.Db.Memory.{memory}
use parcel_delivery_api.Models.Parcel.{Parcel, columns}
use parcel_delivery_api.Services.Parcel.{create_from_dto, commit_new}
use parcel_delivery_api.Api.Http.{HttpRequest}
use parcel_delivery_api.Api.Deps.{get_owner_id, get_session_id}
use parcel_delivery_api.Api.Parcel.{ParcelCreateResponse, register_parcel}
use parcel_delivery_api.Api.OpenApi.{
  Schema, PathItem, operation, metadata, secure_item, custom_openapi,
}
use parcel_delivery_api.Api.OpenApi.Agreement.{asks, passes, scheme_of, documented_as_guarded}
use parcel_delivery_api.Api.Routes.{reader, Route}
use parcel_delivery_api.Middlewares.Session.{
  session_header, session_of, assign_session_id, installed,
}
use parcel_delivery_api.Middlewares.Session.Anonymous.{
  post_parcel, read_parcel, anonymous_round_trip,
}
use parcel_delivery_api.Tests.Toy.{toy}
use parcel_delivery_api.Tests.Parcel.{start, phone, sessions}

with_dashes : is_uuid "c83e529a-9fa9-4445-a2f5-508e2f10e3de" ≡ true
unfolding is_uuid
with_dashes = refl

as_urn : is_uuid "urn:uuid:{C83E529A9FA94445A2F5508E2F10E3DE}" ≡ true
unfolding is_uuid
as_urn = refl

in_braces : is_uuid "{urn:uuid:C83E529A9FA94445A2F5508E2F10E3DE}" ≡ true
unfolding is_uuid
in_braces = refl

too_short : is_uuid "c83e529a9fa94445a2f5508e2f10e3d" ≡ false
unfolding is_uuid
too_short = refl

-- `int` takes a prefix, underscores and a space.
odd_number : is_uuid "0x3e529a9f_94445a2f5508e2f10e3d " ≡ true
unfolding is_uuid
odd_number = refl

shown : uuid_text 10 ≡ "00000000-0000-0000-0000-00000000000a"
unfolding hex_padded
shown = refl

abbrev first : HttpRequest
first = record { cookies = λ name. none; headers = λ name. none; session_id = none }

abbrev session : String
session = "00000000-0000-0000-0000-00000000000a"

abbrev later : HttpRequest
later = record first { headers = λ name. if name == "X-Session-Id" then some session else none }

abbrev reply : ParcelCreateResponse
reply = record { id = "p2"; owner_id = session }

created : (post_parcel memory toy sessions 10 none 0 phone "p2" first start).0.body ≡ ok reply
unfolding installed assign_session_id session_of get_owner_id get_session_id register_parcel
    create_from_dto commit_new le_zero columns negative_value hex_padded
created = refl

told :
    later.headers session_header
    ≡ (post_parcel memory toy sessions 10 none 0 phone "p2" first start).0.headers session_header
unfolding installed assign_session_id session_of hex_padded
told = refl

anonymous_round_trip_example :
    let (posted, s') = post_parcel memory toy sessions 10 none 0 phone "p2" first start in
    let (read, s'') = read_parcel memory toy sessions 11 none 5 "p2" later s' in
    (p : Parcel) × (posted.headers session_header ≡ some session)
    × (read.headers session_header ≡ some session)
    × (read.body ≡ ok p)
    × (p.id ≡ "p2")
    × (s'' ≡ s')
anonymous_round_trip_example =
    anonymous_round_trip memory toy sessions 10 11 0 5 none none first later phone "p2" start reply
      refl created told

abbrev detail : Route
detail = record { method = "GET"; path = "/parcels/{parcel_id}"; guard = reader }

abbrev item : PathItem
item = ("parameters", metadata) ∷ ("get", operation none) ∷ []

abbrev generated : Schema
generated = record { security_schemes = []; paths = ("/parcels/{parcel_id}", item) ∷ [] }

abbrev with_session : HttpRequest
with_session = record first { session_id = some "s1" }

documented_as_guarded_example :
    let (schema, cached) = custom_openapi sessions generated none in
    Has (detail.path, secure_item (scheme_of sessions reader) item) schema.paths
    × (custom_openapi sessions (record generated { paths = [] }) cached ≡ (schema, cached))
    × ((passes toy sessions reader with_session none 5 ≡ true)
        ↔ ((scheme_of sessions reader ≡ none) ⊎ (scheme_of sessions reader ≡ asks "SessionAuth")))
documented_as_guarded_example =
    documented_as_guarded toy sessions generated (record generated { paths = [] }) detail item
      with_session "s1" 5 (inr (inr (inr (inr (inr (inr (inr (inr (inr (inl refl))))))))))
      (inl refl) (λ _. refl) refl
