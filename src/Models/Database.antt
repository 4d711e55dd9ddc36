-- ===== src/Models/Database.antt =====
-- The four tables to which `AsyncSession` gives access (app/db/session.py).
use parcel_delivery_api.Db.Sql.{Sql}
use parcel_delivery_api.Models.User.{User}
use parcel_delivery_api.Models.RefreshToken.{RefreshToken}
use parcel_delivery_api.Models.ParcelType.{ParcelType}
use parcel_delivery_api.Models.Parcel.{Parcel}

pub record Database (sql : Sql) : Type 0 where
  pub users : sql.Table User
  pub refresh_tokens : sql.Table RefreshToken
  pub parcel_types : sql.Table ParcelType
  pub parcels : sql.Table Parcel
