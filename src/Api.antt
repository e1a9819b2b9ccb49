-- ===== src/Api.antt =====
-- web/src/lib/api.ts: the requests that the client sends, and what it makes of the answers.
pub mod Schema
pub mod Schemas
pub mod Uri
pub mod Query
pub mod Request
pub mod Calls
pub mod Fetch
mod Tests
