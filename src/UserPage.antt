-- ===== src/UserPage.antt =====
-- The page of an account: web/src/routes/users/$dn.tsx.
pub mod Forms
pub mod Shadow
pub mod ClassTab
pub mod TabChoice
pub mod Security
pub mod PosixIds
pub mod Memberships
pub mod Expiration
pub mod Keys
mod Tests
