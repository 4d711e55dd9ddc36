-- ===== src/Services/ParcelType.antt =====
-- app/services/parcel_type.py
use parcel_delivery_api.Base.{ℕ, true, List, length}
use parcel_delivery_api.Core.Action.{Action, gets}
use parcel_delivery_api.Db.Sql.{Sql}
use parcel_delivery_api.Models.ParcelType.{ParcelType}
use parcel_delivery_api.Models.Database.{Database}

module _ (sql : Sql) where
  open sql use {scalars, ordered}

  unfoldable pub list_all : Action (Database sql) (List ParcelType)
  list_all = gets (λ s. ordered (λ t. t.name) (λ t. true) s.parcel_types)

  unfoldable pub total : Action (Database sql) ℕ
  total = gets (λ s. length (scalars (λ t. true) s.parcel_types))
