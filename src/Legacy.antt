-- ===== src/Legacy.antt =====
-- src/infrastructure/legacy: which paths go to the legacy service, the headers that are sent with
-- them, and the one answer that the client gets.
pub mod Prefix
pub mod Headers
pub mod Forward
mod Tests
