-- ===== src/Cluster.antt =====
-- src/infrastructure/cluster: the primary process, its boot checks and its worker pool.
pub mod Boot
pub mod Respawn
pub mod Primary
mod Tests
