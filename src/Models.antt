-- ===== src/Models.antt =====
-- app/models: the rows of the tables, the constraints that the models declare, and the database
-- that a session is bound to.
pub mod User
pub mod RefreshToken
pub mod ParcelType
pub mod Parcel
pub mod Database
pub mod Metadata
