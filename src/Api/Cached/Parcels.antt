-- ===== src/Api/Cached/Parcels.antt =====
-- The two cached routes of /parcels.
use parcel_delivery_api.Base.{◌≤◌, ◌≡◌, ◌⊎◌, refl, String, true, arith}
use parcel_delivery_api.Base.Rows.{Has}
use parcel_delivery_api.Core.Action.{Action, ok}
use parcel_delivery_api.Core.Settings.{Settings}
use parcel_delivery_api.Core.Crypto.{Crypto}
use parcel_delivery_api.Db.Sql.{Sql}
use parcel_delivery_api.Models.Parcel.{Parcel}
use parcel_delivery_api.Models.Database.{Database}
use parcel_delivery_api.Services.Parcel.{ParcelFilterParams, get_owned, owned_by}
use parcel_delivery_api.Services.Parcel.Ownership.{get_owned_only}
use parcel_delivery_api.Api.Http.{HttpRequest}
use parcel_delivery_api.Tasks.Redis.{Redis}
use parcel_delivery_api.Api.Parcel.{
  ParcelRead, PaginationParams, PaginatedResponse, get_parcel, list_parcels,
}
use parcel_delivery_api.Api.Cache.{Json, KeyText}
use parcel_delivery_api.Api.Cached.{
  Bearer, KeyLaws, OnePayload, Visit, owner_of, serve, World, Reach, Past,
}
use parcel_delivery_api.Api.Cached.Isolation.{served-FromOwn}

module _ (sql : Sql) (crypto : Crypto) (settings : Settings) (bearer : Bearer) (keys : KeyText)
    (redis : Redis) (item : String) where
  open sql use {rows}

  -- What FastAPI makes of the path and of the query is a parameter.
  module _ (json : Json Parcel) (parcel_id : String → String) where
    abbrev pub detail : String → String → String → Action (Database sql) Parcel
    detail path query owner = get_parcel sql settings (parcel_id path) owner

    get_parcel-own :
        (id owner : String) (s : Database sql) (p : Parcel)
        → (get_parcel sql settings id owner s).0 ≡ ok p
        → Has p (rows s.parcels) × (p.id ≡ id) × (owned_by settings owner p ≡ true)
    unfolding get_parcel
    get_parcel-own id owner s p h =
        let (r, s') = get_owned sql settings id owner s in
        let (_, own) = get_owned_only sql settings id owner s s' r refl in own p (ground (arith, h))

    module _ (Occurs : HttpRequest → String → String → Type 0) where
      abbrev pub DetailReach :
          World crypto settings bearer keys redis json "parcel" item detail → Type 0
      DetailReach w = Reach crypto settings bearer keys redis json "parcel" item detail Occurs w

      abbrev pub DetailPast :
          (w : World crypto settings bearer keys redis json "parcel" item detail)
          → DetailReach w
          → Database sql
          → Type 0
      DetailPast w reach d =
          Past crypto settings bearer keys redis json "parcel" item detail Occurs reach d

      -- In JWT mode, after any requests among those that occur and other steps of the service, a reply of
      -- GET /parcels/{parcel_id}, from the cache or not, is a parcel, or its JSON form, that was stored
      -- under that id in a state which the database had on the way, and that belongs to the owner whom
      -- this request's token names; where the digests of the requests that occur do not collide.
      pub cached_parcel_own :
          (w : World crypto settings bearer keys redis json "parcel" item detail) (v : Visit)
          (reply : Parcel)
          → settings.auth_required ≡ true
          → KeyLaws keys settings Occurs
          → OnePayload crypto
          → (reach : DetailReach w) → Occurs v.request v.path v.query
          → w.clock ≤ v.read_at
          → (serve crypto settings bearer keys redis json "parcel" item detail v (w.db, w.cache)).0
            ≡ ok reply
          → (owner : String) × (p : Parcel) × (d : Database sql) × (owner_of crypto settings bearer
                v.request v.now
              ≡ ok owner)
            × DetailPast w reach d
            × Has p (rows d.parcels)
            × (p.id ≡ parcel_id v.path)
            × (owned_by settings owner p ≡ true)
            × ((reply ≡ p) ⊎ (reply ≡ json.as_json p))
      cached_parcel_own w v reply jwt laws one reach here le h =
          let f =
            served-FromOwn crypto settings bearer keys redis json "parcel" item detail Occurs jwt
              laws w v reply one reach here le h in
          let (stored, same_id, mine) =
            get_parcel-own (parcel_id v.path) f.owner f.answered.db f.a f.answered.answers in
          (f.owner, f.a, f.answered.db, f.owned, f.answered.past, stored, same_id, mine, f.same)

  module _ (json : Json (PaginatedResponse ParcelRead))
      (params : String → PaginationParams × ParcelFilterParams) where
    abbrev pub listing :
        String → String → String → Action (Database sql) (PaginatedResponse ParcelRead)
    listing path query owner = list_parcels sql settings (params query).0 (params query).1 owner
