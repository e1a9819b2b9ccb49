-- ===== src/Netgroup.antt =====
-- web/src/lib/netgroup.ts and the netgroup types of web/src/lib/api.ts.
pub mod Types
pub mod Kind
pub mod KindLaws
pub mod TripleText
pub mod Lookup
mod Tests
