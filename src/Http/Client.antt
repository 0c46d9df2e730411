-- ===== src/Http/Client.antt =====
-- src/infrastructure/http/fetch-http.client.ts: the request loop of `FetchHttpClient`. What the
-- platform does during an attempt is a record of facts, one for each attempt; what the loop does to
-- the outside is a list of events. Other requests share the breakers, and may change them in any
-- way while this one awaits.
pub mod Events
pub mod Headers
pub mod Loop
pub mod Laws
pub mod Circuit
pub mod Tests
