-- ===== src/Requests.antt =====
-- What src/interface/interface.module.ts registers around a handler: the middleware that opens the context
-- of a request, the guards, the validation of the input, and the whole pipeline of a request.
pub mod Context
pub mod Deprecation
pub mod Guards
pub mod Pipeline
pub mod Validation
mod Tests
