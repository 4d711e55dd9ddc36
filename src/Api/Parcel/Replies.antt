-- ===== src/Api/Parcel/Replies.antt =====
-- What the handlers of /parcels reply, by the rows of the table.
use parcel_delivery_api.Base.{◌≡◌, String, none, some, true, false, arith}
use parcel_delivery_api.Core.Exceptions.{http_exception}
use parcel_delivery_api.Core.Action.{ok, raised}
use parcel_delivery_api.Core.Settings.{Settings}
use parcel_delivery_api.Db.Sql.{Sql}
use parcel_delivery_api.Models.Parcel.{Parcel}
use parcel_delivery_api.Models.Database.{Database}
use parcel_delivery_api.Services.Parcel.{has_id, owned_by, get_owned}
use parcel_delivery_api.Api.Parcel.{get_parcel}

module _ (sql : Sql) (settings : Settings) where
  open sql use {scalar}

  -- GET /parcels/{id} tells a stranger whether the parcel exists: an unknown id is a 404, and a parcel
  -- of another owner is a 403; its owner gets it.
  pub get_parcel_replies :
      (parcel_id owner : String) (s : Database sql)
      → let found = scalar (has_id parcel_id) s.parcels in
        let r = get_parcel sql settings parcel_id owner s in
        (found ≡ none → r ≡ (raised (http_exception 404 "Not found"), s))
        × ((p : Parcel)
            → found ≡ some p
            → owned_by settings owner p ≡ false
            → r ≡ (raised (http_exception 403 "Forbidden"), s))
        × ((p : Parcel) → found ≡ some p → owned_by settings owner p ≡ true → r ≡ (ok p, s))
  unfolding get_parcel get_owned
  get_parcel_replies parcel_id owner s =
      (λ e. ground (arith, e), λ p e o. ground (arith, e, o), λ p e o. ground (arith, e, o))
