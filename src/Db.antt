-- ===== src/Db.antt =====
-- The database as the services use it: tables behind SQLAlchemy's statements. The engine is no code
-- of the repository, so its operations are parameters, with what their documentation says as laws.
pub mod Sql
pub mod Insert
pub mod Laws
pub mod Memory
pub mod Schema
pub mod Ddl
