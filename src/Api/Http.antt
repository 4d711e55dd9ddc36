-- ===== src/Api/Http.antt =====
-- Requests, replies and what wraps every handler. A handler's `owner_id`, `user_id` and body are what
-- FastAPI resolved for it; `hit` is the answer of the `limits` strategy for the caller and the route.
use Prim.Native.Char.{code}
use parcel_delivery_api.Base.{
  ℕ, String, Bool, true, Option, none, some, List, [], ◌∷◌, ◌==◌, ◌&&◌, leb, if◌then◌else◌,
}
use parcel_delivery_api.Core.Exceptions.{rate_limit_exceeded, type_error}
use parcel_delivery_api.Core.Action.{Action, Result, ok, raised, raise}

pub record HttpRequest : Type 0 where
  pub cookies : String → Option String
  pub headers : String → Option String
  -- `request.state.session_id`, where the middleware has set it
  pub session_id : Option String

-- The arguments of `response.set_cookie`; a deleted cookie has age zero.
pub record Cookie : Type 0 where
  pub name : String
  pub value : String
  pub max_age : ℕ
  pub httponly : Bool
  pub secure : Bool
  pub path : String

-- What the browser sends back of the cookies that a reply has set.
abbrev pub jar : List Cookie → String → Option String
jar [] name = none
jar (c ∷ cs) name = if c.name == name then some c.value else jar cs name

-- `not value`, for a header or a cookie that may be missing
abbrev pub given : Option String → Option String
given none = none
given (some s) = if s == "" then none else some s

abbrev pub is_ascii : String → Bool
is_ascii String.[] = true
is_ascii (String.◌∷◌ c s) = leb (code c) 127 && is_ascii s

-- `secrets.compare_digest` of two texts, which raises TypeError unless both are ASCII
unfoldable pub compare_digest : String → String → Result Bool
compare_digest a b = if is_ascii a && is_ascii b then ok (a == b) else raised type_error

-- `Limiter.limit`: the handler runs only if the caller is within the limit. The strategy counts the
-- call in Redis before it answers; those counters are no part of a handler's state, and Api/RateLimit
-- has them.
unfoldable pub limit : {S A : Type 0} → String → Bool → Action S A → Action S A
limit item hit handler = if hit then handler else raise (rate_limit_exceeded item)
