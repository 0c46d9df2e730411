-- ===== src/Http.antt =====
-- Outbound HTTP (src/infrastructure/http): the circuit breaker, the retry policy and the client.
pub mod Breaker
pub mod Retry
pub mod Client
