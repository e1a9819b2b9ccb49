-- ===== src/Timestamp.antt =====
-- LDAP generalized time: the timestamp functions of web/src/lib/utils.ts.
pub mod Calendar
pub mod Parse
pub mod CalendarLaws
pub mod DateText
mod Tests
