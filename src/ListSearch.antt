-- ===== src/ListSearch.antt =====
-- web/src/lib/list-search.ts: the view of a list page, as its URL holds it.
pub mod Validate
pub mod Laws
mod Tests
