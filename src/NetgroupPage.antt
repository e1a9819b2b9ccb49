-- ===== src/NetgroupPage.antt =====
-- The components that show and edit netgroups: web/src/components/netgroup-usage.tsx,
-- netgroup-triples.tsx, netgroup-sudo-usage.tsx and netgroup-picker.tsx.
pub mod Usage
pub mod Triples
mod Tests
