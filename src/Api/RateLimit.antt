-- ===== src/Api/RateLimit.antt =====
-- app/core/rate_limit.py. The fixed-window strategy of `limits` is a parameter.
pub mod Callers
use Prim.Native.String.{◌++◌}
use parcel_delivery_api.Base.{
  ℕ, ◌≡◌, ◌≢◌, ◌⊎◌, String, Bool, Option, none, some, List, [], ◌∷◌, ◌==◌, if◌then◌else◌,
}
use parcel_delivery_api.Core.Exceptions.{runtime_error}
use parcel_delivery_api.Core.Action.{Action, Result, raised}
use parcel_delivery_api.Api.Http.{limit}

-- The strategy counts every item with its identifiers on its own: a slot of the counters.
pub record Strategy : Type 1 where
  pub Counters : Type 0
  pub Slot : Type 0
  pub hit : String → String → String → ℕ → Counters → Bool × Counters
  pub slot : String → String → String → Counters → Slot
  pub hit_verdict :
      (item route address : String) (t : ℕ) (c c' : Counters)
      → slot item route address c ≡ slot item route address c'
      → (hit item route address t c).0 ≡ (hit item route address t c').0
  pub hit_slot :
      (item route address : String) (t : ℕ) (c c' : Counters)
      → slot item route address c ≡ slot item route address c'
      → slot item route address (hit item route address t c).1
        ≡ slot item route address (hit item route address t c').1
  pub hit_other :
      (item item' route route' address address' : String) (t : ℕ) (c : Counters)
      → (item ≢ item') ⊎ ((route ≢ route') ⊎ (address ≢ address'))
      → slot item' route' address' (hit item route address t c).1 ≡ slot item' route' address' c

-- What the limiter reads of a request: the path of the matched route, if there is one.
pub record RouteRequest : Type 0 where
  pub method : String
  pub route_path : Option String
  pub url_path : String
  pub client : Option String

-- An argument of the decorated handler
pub data Argument : Type 0 where
  request : RouteRequest → Argument
  value : Argument

abbrev first_request : List Argument → Option RouteRequest
first_request [] = none
first_request (request r ∷ args) = some r
first_request (value ∷ args) = first_request args

-- `kwargs.get(name)`
abbrev keyword : String → List (String × Argument) → Option Argument
keyword name [] = none
keyword name ((k, a) ∷ kwargs) = if k == name then some a else keyword name kwargs

unfoldable pub find_request : List Argument → List (String × Argument) → Option RouteRequest
find_request args kwargs = elim (keyword "request" kwargs) [
  | some (request r) ↦ some r
  | some value ↦ first_request args
  | none ↦ first_request args
]

abbrev pub path_of : RouteRequest → String
path_of r = elim r.route_path [ none ↦ r.url_path | some path ↦ path ]

abbrev pub route_identifier : RouteRequest → String
route_identifier r = r.method ++ (":" ++ path_of r)

abbrev pub remote_address : RouteRequest → String
remote_address r = elim r.client [ none ↦ "unknown" | some host ↦ host ]

module _ (strategy : Strategy) where
  open strategy use {Counters, hit}

  abbrev pub hit_by : String → RouteRequest → ℕ → Counters → Bool × Counters
  hit_by item r t c = hit item (route_identifier r) (remote_address r) t c

  -- `Limiter.limit`: the wrapper of a handler
  unfoldable pub limited :
      {S A : Type 0}
      → String
      → List Argument
      → List (String × Argument)
      → ℕ
      → Action S A
      → Action (S × Counters) A
  unfolding find_request limit
  limited item args kwargs t handler (s, c) = elim (find_request args kwargs) [
    | none ↦ (raised (runtime_error "Rate-limited handlers must accept a Request argument"), (s, c))
    | some r ↦
        let (b, c') = hit_by item r t c in
        let (reply, s') = limit item b handler s in (reply, (s', c'))
  ]
