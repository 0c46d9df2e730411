-- ===== src/Shared.antt =====
-- src/shared: dynamic values and the guards on them, results, correlation ids and trace contexts.
pub mod Values
pub mod Outcome
pub mod Correlation
pub mod Trace
pub mod Text
mod Tests
