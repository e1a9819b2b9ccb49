-- ===== src/Display.antt =====
-- How things are shown and named: web/src/lib/tones.ts, web/src/lib/page-title.ts,
-- web/src/lib/scheduled-tasks.ts, web/src/lib/audit-links.ts and web/src/lib/theme.tsx.
pub mod Tones
pub mod PageTitle
pub mod Tasks
pub mod AuditLinks
pub mod Theme
mod Tests
