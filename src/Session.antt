-- ===== src/Session.antt =====
-- What a session may see and do: web/src/lib/use-server-info.ts, web/src/lib/sections.ts and
-- web/src/lib/auth.tsx.
pub mod ServerInfo
pub mod Sections
pub mod SectionLaws
pub mod Auth
pub mod AuthLaws
mod Tests
