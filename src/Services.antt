-- ===== src/Services.antt =====
-- app/services: the business rules between the handlers and the tables.
pub mod Base
pub mod Auth
pub mod Parcel
pub mod ParcelType
