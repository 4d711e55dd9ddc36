-- ===== src/Tests/Cached.antt =====
-- app/core/cache.py under the routes of app/api/parcel.py
use Prim.Native.String.{◌∷◌ as chr}
use mathlib.Core.Path.{subst}
use parcel_delivery_api.Base.{
  ℕ, ◌≡◌, ◌⊎◌, refl, sym, ap, ◌∙◌, String, true, Option, none, some, [], ◌∷◌, arith, ◌==◌,
  if◌then◌else◌,
}
use parcel_delivery_api.Base.Rows.{Has}
use parcel_delivery_api.Core.Action.{Action, Result, ok}
use parcel_delivery_api.Core.Settings.{default_settings}
use parcel_delivery_api.Core.Crypto.{Crypto, Payload, text}
use parcel_delivery_api.Core.Security.{claims_of, decode_token}
use parcel_delivery_api.Core.Text.{join}
use parcel_delivery_api.Core.Text.RoundTrip.{split-join}
use parcel_delivery_api.Db.Memory.{memory}
use parcel_delivery_api.Models.Parcel.{Parcel}
use parcel_delivery_api.Models.Database.{Database}
use parcel_delivery_api.Services.Parcel.{get_owned, list_owned, owned_by, matches}
use parcel_delivery_api.Api.Http.{HttpRequest, limit}
use parcel_delivery_api.Api.Deps.{bearer_claims, get_owner_id}
use parcel_delivery_api.Api.Parcel.{
  ParcelRead, read_item, PaginationParams, PaginatedResponse, get_parcel, list_parcels,
}
use parcel_delivery_api.Services.Parcel.{ParcelFilterParams}
use parcel_delivery_api.Api.Cache.{Json, KeyText, make_cache_key, redis_cache}
use parcel_delivery_api.Api.Cached.{
  Bearer, KeyLaws, OnePayload, Visit, owner_of, serve, World, Step, Reach,
}
use parcel_delivery_api.Api.Cached.Parcels.{DetailPast, detail, listing, cached_parcel_own}
use parcel_delivery_api.Tests.Toy.{toy}
use parcel_delivery_api.Tests.ToyRedis.{State, toy_redis}
use parcel_delivery_api.Tests.Wire.{chr-nonempty, put_text, get_text, get-put_text}
use parcel_delivery_api.Tests.Parcel.{start, stored}

-- A token whose subject is its own text, with the scope of a reader.
abbrev payload_of : String → Payload
payload_of t = record {
  sub = some (text t);
  exp = none;
  iat = none;
  nbf = none;
  jti = some (text "j");
  iss = some (text "i");
  aud = some (text "a");
  role = some (text "user");
  scope = some (text (join ("parcels:read" ∷ [])));
}

abbrev plain : Crypto
plain = record toy { jwt_decode = λ t key algorithm issuer audience now. some (payload_of t) }

one_payload : OnePayload plain
one_payload t key algorithm issuer audience now now' p p' h h' = ground (arith, h, h')

abbrev without_scheme : Option String → Option String
without_scheme none = none
without_scheme (some h) = if h == "anon" then none else some h

abbrev bearer : Bearer
bearer = record { token = without_scheme; token-none = refl; token-anon = refl }

abbrev raw_key : Option String → String → String → String
raw_key none path query = put_text path (put_text query "")
raw_key (some i) path query = put_text i (put_text path (put_text query ""))

abbrev pub keys : KeyText
keys = record { hexdigest = λ t. t; raw_key = raw_key }

put_text-inj :
    (a b rest rest' : String) → put_text a rest ≡ put_text b rest' → (a ≡ b) × (rest ≡ rest')
put_text-inj a b rest rest' h =
    let e = sym (get-put_text a rest) ∙ ap get_text h ∙ get-put_text b rest' in
    (ap (λ q. q.0) e, ap (λ q. q.1) e)

raw_key-inj :
    (i i' p p' q q' : String)
    → raw_key (some i) p q ≡ raw_key (some i') p' q'
    → (i ≡ i') × (p ≡ p') × (q ≡ q')
raw_key-inj i i' p p' q q' h =
    let (a, rest) = put_text-inj i i' _ _ h in
    let (b, rest') = put_text-inj p p' _ _ rest in
    let (c, _) = put_text-inj q q' _ _ rest' in (a, b, c)

abbrev laptop : Parcel
laptop = record stored { user_id = some "u1"; session_id = "" }

abbrev unquote : String → String
unquote String.[] = ""
unquote (String.◌∷◌ c s) = s

-- A JSON form that keeps the id alone.
abbrev pub json : Json Parcel
json = record {
  dumps = λ p. chr "q" p.id;
  loads = λ s. record laptop { id = unquote s };
  as_json = λ p. record laptop { id = p.id };
  loads-dumps = λ p. refl;
  dumps-nonempty = λ p. chr-nonempty "q" p.id;
}

abbrev with_laptop : Database memory
with_laptop = record start { parcels = laptop ∷ [] }

abbrev request : HttpRequest
request = record {
  cookies = λ name. none;
  headers = λ name. if name == "Authorization" then some "u1" else none;
  session_id = none;
}

-- The requests that occur are of one client.
abbrev Occurs : HttpRequest → String → String → Type 0
Occurs r path query = r.headers "Authorization" ≡ some "u1"

key_laws : KeyLaws keys default_settings Occurs
key_laws = record {
  digest_inj = λ r r' p p' q q' o o' h. h;
  short_digest_inj = λ r r' p p' q q' o o' h. rw (o, o') refl;
  raw_key_inj = raw_key-inj;
}

abbrev visit_at : String → ℕ → Visit
visit_at path t = record {
  request = request;
  path = path;
  query = "";
  hit = true;
  now = t;
  read_at = t;
  stored_at = t;
}

abbrev by_path : String → String
by_path path = path

abbrev first :
    World plain default_settings bearer keys toy_redis json "parcel" "60 per 1 minute"
      (detail memory plain default_settings bearer keys toy_redis "60 per 1 minute" json by_path)
first = record { clock = 0; db = with_laptop; cache = λ t k. none }

abbrev second :
    World plain default_settings bearer keys toy_redis json "parcel" "60 per 1 minute"
      (detail memory plain default_settings bearer keys toy_redis "60 per 1 minute" json by_path)
second = record {
  clock = 10;
  db = with_laptop;
  cache =
      toy_redis.set (make_cache_key keys default_settings "parcel" request "p1" "")
        (json.dumps laptop) (some 60) 10 first.cache;
}

owner_at : (t : ℕ) → owner_of plain default_settings bearer request t ≡ ok "u1"
unfolding get_owner_id bearer_claims claims_of decode_token
owner_at t = rw (split-join ("parcels:read" ∷ []) ((refl, refl), tt)) refl

abbrev at_path : Visit → Action (Database memory × State) Parcel
at_path v =
    serve plain default_settings bearer keys toy_redis json "parcel" "60 per 1 minute"
      (detail memory plain default_settings bearer keys toy_redis "60 per 1 minute" json by_path) v

-- The first visit runs the handler and stores its reply.
ran : at_path (visit_at "p1" 10) (first.db, first.cache) ≡ (ok laptop, (second.db, second.cache))
unfolding limit redis_cache get_parcel get_owned owned_by serve make_cache_key
ran = rw (serve, owner_at 10) refl

abbrev Worlds : Type 0
Worlds =
    World plain default_settings bearer keys toy_redis json "parcel" "60 per 1 minute"
      (detail memory plain default_settings bearer keys toy_redis "60 per 1 minute" json by_path)

abbrev Reached : Worlds → Type 0
Reached w =
    Reach plain default_settings bearer keys toy_redis json "parcel" "60 per 1 minute"
      (detail memory plain default_settings bearer keys toy_redis "60 per 1 minute" json by_path)
      Occurs w

abbrev world_of : Result Parcel × (Database memory × State) → Worlds
world_of (_, (s, r)) = record { clock = 10; db = s; cache = r }

second-Reach : Reached second
second-Reach = subst Reached (ap world_of ran) (
    Reach.next (Reach.start first (λ request path query t. refl))
      (Step.visit first (visit_at "p1" 10) refl (omega arith) (omega arith)))

-- The second one is answered from the cache.
found : (at_path (visit_at "p1" 40) (second.db, second.cache)).0 ≡ ok (record laptop { id = "p1" })
unfolding limit redis_cache put_text make_cache_key serve
found = rw (serve, owner_at 40) refl

cached_parcel_own_example :
    (owner : String) × (p : Parcel) × (d : Database memory) × (owner_of plain default_settings
        bearer request 40
      ≡ ok owner)
    × DetailPast memory plain default_settings bearer keys toy_redis "60 per 1 minute" json by_path
        Occurs second second-Reach d
    × Has p d.parcels
    × (p.id ≡ "p1")
    × (owned_by default_settings owner p ≡ true)
    × ((record laptop { id = "p1" } ≡ p) ⊎ (record laptop { id = "p1" } ≡ json.as_json p))
cached_parcel_own_example =
    cached_parcel_own memory plain default_settings bearer keys toy_redis "60 per 1 minute" json
      by_path Occurs second (visit_at "p1" 40) (record laptop { id = "p1" }) refl key_laws
      one_payload second-Reach refl (omega arith) found

abbrev pub json_page : Json (PaginatedResponse ParcelRead)
json_page = record {
  dumps = λ page. "page";
  loads = λ s. record { items = []; total = 0; limit = 1; offset = 0 };
  as_json = λ page. record { items = []; total = 0; limit = 1; offset = 0 };
  loads-dumps = λ page. refl;
  dumps-nonempty = λ page. refl;
}

abbrev params : String → PaginationParams × ParcelFilterParams
params query = (record { limit = 20; offset = 0 }, record { type_id = none; has_cost = none })

abbrev pages : String → String → String → Action (Database memory) (PaginatedResponse ParcelRead)
pages =
    listing memory plain default_settings bearer keys toy_redis "30 per 1 minute" json_page params

abbrev first_world :
    World plain default_settings bearer keys toy_redis json_page "parcels" "30 per 1 minute" pages
first_world = record { clock = 0; db = with_laptop; cache = λ t k. none }

abbrev page : PaginatedResponse ParcelRead
page = record {
  items = read_item memory default_settings start.parcel_types laptop ∷ [];
  total = 1;
  limit = 20;
  offset = 0;
}

listed :
    (serve plain default_settings bearer keys toy_redis json_page "parcels" "30 per 1 minute" pages
      (visit_at "/parcels" 10)
      (first_world.db, first_world.cache)).0
    ≡ ok page
unfolding limit redis_cache serve make_cache_key list_parcels list_owned owned_by matches
listed = rw (serve, owner_at 10) refl
