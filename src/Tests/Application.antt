-- ===== src/Tests/Application.antt =====
-- app/main.py: the reply to a stranger who asks for a parcel
use parcel_delivery_api.Base.{refl, true, false, some, none, []}
use parcel_delivery_api.Db.Memory.{memory}
use parcel_delivery_api.Models.ParcelType.{ParcelType}
use parcel_delivery_api.Api.Http.{HttpRequest}
use parcel_delivery_api.Api.Cache.{Json}
use parcel_delivery_api.Api.Parcel.{PaginatedResponse}
use parcel_delivery_api.Api.Documented.{get_parcel_responses}
use parcel_delivery_api.Api.Calls.{get_parcel_route, manual_recalc_route, Call, get_owned, recalc}
use parcel_delivery_api.Api.Application.{Outer, World, answer}
use parcel_delivery_api.Api.Application.Replies.{Answered, every_reply_documented}
use parcel_delivery_api.Tests.Delivery.{tick}
use parcel_delivery_api.Tests.Toy.{toy}
use parcel_delivery_api.Tests.ToyRedis.{toy_redis, toy_text}
use parcel_delivery_api.Tests.Schemas.{rules}
use parcel_delivery_api.Tests.Cached.{keys, json, json_page}
use parcel_delivery_api.Tests.Parcel.{sessions, start}

abbrev json_types : Json (PaginatedResponse ParcelType)
json_types = record {
  dumps = λ page. "page";
  loads = λ s. record { items = []; total = 0; limit = 1; offset = 0 };
  as_json = λ page. record { items = []; total = 0; limit = 1; offset = 0 };
  loads-dumps = λ page. refl;
  dumps-nonempty = λ page. refl;
}

abbrev outer : Outer
outer = record {
  sql = memory;
  crypto = toy;
  redis = toy_redis;
  text = toy_text;
  rules = rules;
  email_str = λ e. true;
  keys = keys;
  types_json = json_types;
  parcels_json = json_page;
  parcel_json = json;
  item = λ e. "60 per 1 minute";
}

abbrev stranger : HttpRequest
stranger = record { cookies = λ n. none; headers = λ n. none; session_id = some "s2" }

abbrev ask : Call get_parcel_route
ask =
    get_owned true stranger none 0 "p1"
      (record { path = "/parcels/p1"; query = ""; read_at = 0; stored_at = 0 })

abbrev world : World outer sessions
world = (start, λ t k. none)

every_reply_documented_example :
    Answered outer sessions get_parcel_responses (answer outer sessions ask world)
every_reply_documented_example = every_reply_documented outer sessions ask world (refl, tt)

-- A wrong admin token, over the limit: the token is what is answered.
abbrev guess : Call manual_recalc_route
guess = recalc false stranger 0 (tick 5)
