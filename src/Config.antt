-- ===== src/Config.antt =====
-- src/infrastructure/config: from the environment to a configuration that is accepted.
pub mod Env
pub mod Fields
pub mod Database
pub mod Sections
pub mod Tls
mod Tests
