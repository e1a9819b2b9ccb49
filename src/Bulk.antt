-- ===== src/Bulk.antt =====
-- web/src/lib/bulk.ts: actions on many items with a bounded number of requests in flight.
pub mod Run
pub mod Invariant
pub mod Results
pub mod Summary
pub mod Warnings
pub mod Report
mod Tests
