-- ===== src/Idempotency.antt =====
-- Idempotent requests: the two stores of src/infrastructure/database/idempotency behind the port
-- src/application/ports/idempotency-store.port.ts, and the interceptor in front of the handlers.
pub mod Port
pub mod Memory
pub mod Oracle
pub mod Interceptor
mod Tests
