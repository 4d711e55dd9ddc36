-- ===== src/Tests/Spec.antt =====
-- app/services/parcel.py against its specification
use parcel_delivery_api.Base.{ℕ, ◌≡◌, refl, Bool, List, [], ◌∷◌}
use parcel_delivery_api.Core.Action.{ok}
use parcel_delivery_api.Core.Decimal.{decimal}
use parcel_delivery_api.Db.Memory.{memory}
use parcel_delivery_api.Models.Parcel.{Parcel}
use parcel_delivery_api.Services.Parcel.{ParcelFilterParams, list_owned}
use parcel_delivery_api.Services.Parcel.Spec.{
  Operation, creation, reading, listing, pricing, perform_all, view, AllowedHistory,
}
use parcel_delivery_api.Services.Parcel.Spec.Refinement.{Keyed, service_refines}
use parcel_delivery_api.Services.Parcel.Spec.Isolation.{seen, others_unseen}
use parcel_delivery_api.Tests.Parcel.{start, stored, phone, sessions, anything}

abbrev busy : List Operation
busy =
    creation phone "s1" "p2"
    ∷ reading "p2" "s2"
    ∷ listing "s1" anything 20 0
    ∷ pricing stored (decimal 100 2)
    ∷ []

service_refines_example :
    let (answers, s') = perform_all memory sessions busy start in
    AllowedHistory sessions start.users start.parcel_types busy
      (view memory start)
      answers
      (view memory s')
    × Keyed memory sessions s'
service_refines_example = service_refines memory sessions busy start (refl, tt)

-- What a second session does meanwhile.
abbrev second : List Operation
second = creation phone "s2" "p2" ∷ reading "p1" "s2" ∷ []

others_unseen_example :
    let s' = (perform_all memory sessions second start).1 in
    ((q : Parcel → Bool)
      → seen memory sessions "s1" q (view memory s')
        ≡ seen memory sessions "s1" q (view memory start))
    × ((filters : ParcelFilterParams) (limit offset : ℕ)
        → (n : ℕ) × (rows : List Parcel) × (rows' : List Parcel) × (list_owned memory sessions "s1"
              filters limit offset start
            ≡ (ok (n, rows), start))
          × (list_owned memory sessions "s1" filters limit offset s' ≡ (ok (n, rows'), s')))
others_unseen_example = others_unseen memory sessions "s1" second start (refl, tt) (refl, (tt, tt))
