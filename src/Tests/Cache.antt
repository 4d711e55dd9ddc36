-- ===== src/Tests/Cache.antt =====
-- app/core/cache.py and the replies of app/api/parcel.py
use Prim.Native.String.{◌∷◌ as chr}
use parcel_delivery_api.Base.{ℕ, refl, String, none}
use parcel_delivery_api.Core.Action.{Action, ok}
use parcel_delivery_api.Api.Cache.{Json}
use parcel_delivery_api.Tests.Wire.{chr-nonempty}
use parcel_delivery_api.Tests.ToyRedis.{State}

abbrev unquote : String → String
unquote String.[] = ""
unquote (String.◌∷◌ c s) = s

abbrev quoted : Json String
quoted = record {
  dumps = λ s. chr "q" s;
  loads = unquote;
  as_json = λ s. s;
  loads-dumps = λ s. refl;
  dumps-nonempty = λ s. chr-nonempty "q" s;
}

abbrev reply : String → Action ℕ String
reply text n = (ok text, n)

abbrev empty : State
empty = λ t k. none
