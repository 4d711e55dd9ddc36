-- ===== src/Models/ParcelType.antt =====
-- app/models/parcel_type.py
use parcel_delivery_api.Base.{String}

pub record ParcelType : Type 0 where
  pub id : String
  pub name : String
