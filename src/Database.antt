-- ===== src/Database.antt =====
-- src/infrastructure/database: the concurrency limiter, the Oracle client and the pool manager.
pub mod Semaphore
pub mod Oracle
pub mod Pools
mod Tests
