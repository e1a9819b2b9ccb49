-- ===== src/Account.antt =====
-- web/src/lib/account.ts and the status that web/src/components/account-status.tsx shows.
pub mod Lock
pub mod Status
pub mod Laws
mod Tests
