-- ===== src/Api/Schemas.antt =====
-- The schemas of web/src/lib/api.ts, by what they describe.
pub mod Auth
pub mod Users
pub mod Groups
pub mod Audit
pub mod Sudo
pub mod Policies
pub mod Config
