-- ===== src/Middlewares/Session/Anonymous.antt =====
-- A client of the older mode, from its first request on.
use parcel_delivery_api.Base.{
  ℕ, ◌≡◌, refl, sym, ap, ◌∙◌, String, Bool-cases, Option-cases, true, false, eq_iff, Option, some,
  ◌==◌, inl, inr, arith, List, [], ◌∷◌,
}
use parcel_delivery_api.Core.Action.{Action, Result-cases, ok}
use parcel_delivery_api.Core.Settings.{Settings}
use parcel_delivery_api.Core.Crypto.{Crypto}
use parcel_delivery_api.Core.Uuid.{is_uuid}
use parcel_delivery_api.Core.Uuid.Accepted.{uuid_text-accepted}
use parcel_delivery_api.Db.Sql.{Sql}
use parcel_delivery_api.Models.Parcel.{Parcel}
use parcel_delivery_api.Models.Database.{Database}
use parcel_delivery_api.Services.Parcel.{ParcelCreate, new_parcel, create_from_dto, get_owned}
use parcel_delivery_api.Services.Parcel.Ownership.{create_then_get, create-inverse, columns-keys}
use parcel_delivery_api.Api.Http.{HttpRequest, given}
use parcel_delivery_api.Api.Deps.{
  get_session_id, get_owner_id, get_parcel_writer_owner_id, get_parcel_reader_owner_id,
}
use parcel_delivery_api.Api.Parcel.{ParcelCreateResponse, register_parcel, get_parcel}
use parcel_delivery_api.Middlewares.Session.{
  App, session_header, session_of, assign_session_id, installed, endpoint,
}

-- Whatever the client sends, its session is a text that Python reads as a UUID.
pub session_of-accepted :
    (fresh : ℕ) (request : HttpRequest) → is_uuid (session_of fresh request) ≡ true
unfolding session_of
session_of-accepted fresh request = elim (Option-cases (given (request.headers session_header))) [
  | inl e ↦ rw (session_of, e) (uuid_text-accepted fresh)
  | inr (session, e) ↦ elim (Bool-cases (is_uuid session)) [
    | inl u ↦ rw (session_of, e, u) u
    | inr u ↦ rw (session_of, e, u) (uuid_text-accepted fresh)
  ]
]

empty-refused : is_uuid "" ≡ false
unfolding is_uuid
empty-refused = refl

given-accepted : (session : String) → is_uuid session ≡ true → given (some session) ≡ some session
given-accepted session u = elim (Bool-cases (session == "")) [
  | inl e ↦
      let same = ap is_uuid ((eq_iff session "").0 e) in ground (arith, u, same, empty-refused)
  | inr e ↦ rw e refl
]

session_of-sent :
    (fresh : ℕ) (request : HttpRequest) (session : String)
    → request.headers session_header ≡ some session
    → is_uuid session ≡ true
    → session_of fresh request ≡ session
unfolding session_of
session_of-sent fresh request session h u =
    rw (session_of, ap given h ∙ given-accepted session u, u) refl

-- A session id that was handed out, or accepted, is kept when the client sends it again.
pub session_kept :
    (fresh fresh' : ℕ) (request later : HttpRequest)
    → later.headers session_header ≡ some (session_of fresh request)
    → session_of fresh' later ≡ session_of fresh request
session_kept fresh fresh' request later h =
    session_of-sent fresh' later (session_of fresh request) h (session_of-accepted fresh request)

module _ (sql : Sql) (crypto : Crypto) (settings : Settings) where
  abbrev pub Db : Type 0
  Db = Database sql

  -- POST /parcels and GET /parcels/{parcel_id} under the middleware and the dependency of the route; the
  -- rate limits of both and the cache of the second are left out.
  abbrev pub post_parcel :
      ℕ → Option String → ℕ → ParcelCreate → String → App Db ParcelCreateResponse
  post_parcel fresh token now body id = installed settings fresh (
      endpoint (λ request. get_parcel_writer_owner_id crypto settings request token now)
        (λ owner. register_parcel sql settings body owner id))

  abbrev pub read_parcel : ℕ → Option String → ℕ → String → App Db Parcel
  read_parcel fresh token now id = installed settings fresh (
      endpoint (λ request. get_parcel_reader_owner_id crypto settings request token now)
        (λ owner. get_parcel sql settings id owner))

  -- In the older mode a request is served for its session, and the response names that session.
  served :
      {A : Type 0} (fresh now : ℕ) (token : Option String) (scopes : List String)
      (handler : String → Action Db A) (request : HttpRequest) (s : Db)
      → settings.auth_required ≡ false
      → let session = session_of fresh request in
        let (response, s') =
          installed settings fresh
            (endpoint (λ r. get_owner_id crypto settings scopes r token now) handler)
            request
            s in
        ((response.body, s') ≡ handler session s) × (response.headers session_header ≡ some session)
  unfolding installed assign_session_id get_owner_id get_session_id
  served fresh now token scopes handler request s e = (rw e refl, rw e refl)

  registered :
      (body : ParcelCreate) (owner id : String) (s s' : Db) (reply : ParcelCreateResponse)
      → register_parcel sql settings body owner id s ≡ (ok reply, s')
      → (p : Parcel) × (create_from_dto sql settings body owner id s ≡ (ok p, s'))
        × (reply.id ≡ p.id)
        × (reply.owner_id ≡ owner)
  unfolding register_parcel
  registered body owner id s s' reply h =
      let (r, t) = create_from_dto sql settings body owner id s in
      elim (Result-cases r) [
        | inl (e, k) ↦ ground (arith, h, k)
        | inr (p, k) ↦ (p, ground (arith, h, k), ground (arith, h, k), ground (arith, h, k))
      ]

  created_id :
      (body : ParcelCreate) (owner id : String) (s s' : Db) (p : Parcel)
      → create_from_dto sql settings body owner id s ≡ (ok p, s')
      → p.id ≡ id
  created_id body owner id s s' p h =
      (columns-keys sql settings (new_parcel sql settings body owner id) p
        (create-inverse sql settings body owner id s s' p h).0).0

  get-own :
      (owner id : String) (s : Db) (p : Parcel)
      → get_owned sql settings id owner s ≡ (ok p, s)
      → get_parcel sql settings id owner s ≡ (ok p, s)
  unfolding get_parcel
  get-own owner id s p h = rw h refl

  -- In the older mode a client whose parcel is created, whatever session it sent or whether it sent one,
  -- is told a session in the header of the response, and that session is the owner it is told in the
  -- body; when it sends that session with a later request, it reads its parcel by the id that it was
  -- told, is told the same session again, and the database stays as it was.
  pub anonymous_round_trip :
      (fresh fresh' now now' : ℕ) (token token' : Option String) (first later : HttpRequest)
      (body : ParcelCreate) (id : String) (s : Db) (reply : ParcelCreateResponse)
      → settings.auth_required ≡ false
      → let (posted, s') = post_parcel fresh token now body id first s in
        posted.body ≡ ok reply
        → later.headers session_header ≡ posted.headers session_header
        → let (read, s'') = read_parcel fresh' token' now' reply.id later s' in
          (p : Parcel) × (posted.headers session_header ≡ some reply.owner_id)
          × (read.headers session_header ≡ some reply.owner_id)
          × (read.body ≡ ok p)
          × (p.id ≡ reply.id)
          × (s'' ≡ s')
  anonymous_round_trip fresh fresh' now now' token token' first later body id s reply off b h =
      let session = session_of fresh first in
      let (posted, s') = post_parcel fresh token now body id first s in
      let (e, told) =
        served fresh now token ("parcels:write" ∷ [])
          (λ owner. register_parcel sql settings body owner id) first s off in
      let (p, c, i, o) = registered body session id s s' reply (sym e ∙ ap (λ r. (r, s')) b) in
      let named : some session ≡ some reply.owner_id = ap some (sym o) in
      let kept = session_kept fresh fresh' first later (h ∙ told) in
      let (e', told') =
        served fresh' now' token' ("parcels:read" ∷ [])
          (λ owner. get_parcel sql settings reply.id owner) later s' off in
      let same_id = created_id body session id s s' p c in
      let answer =
        e'
        ∙ ap (λ owner. get_parcel sql settings reply.id owner s') kept
        ∙ ap (λ x. get_parcel sql settings x session s') (i ∙ same_id)
        ∙ get-own session id s' p (create_then_get sql settings body session id s s' p c).0 in
      (
        p,
        told ∙ named,
        told' ∙ ap some kept ∙ named,
        ap (λ q. q.0) answer,
        sym i,
        ap (λ q. q.1) answer,
      )
