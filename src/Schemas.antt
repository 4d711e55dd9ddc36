-- ===== src/Schemas.antt =====
-- app/schemas: what a payload must be before a handler sees it.
pub mod Parcel
pub mod Auth
