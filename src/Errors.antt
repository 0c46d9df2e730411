-- ===== src/Errors.antt =====
-- src/interface/http/error-presenter.ts, global-exception.filter.ts and
-- common/interceptors/response-formatter.interceptor.ts: how an error or a result becomes an answer.
pub mod Presenter
pub mod Filter
pub mod Safe
pub mod Formatter
pub mod Origin
pub mod Raised
mod Tests
