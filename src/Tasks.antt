-- ===== src/Tasks.antt =====
-- app/tasks and the Redis commands that it uses.
pub mod Redis
pub mod Rates
pub mod Delivery
pub mod Scheduler
