-- ===== src/Dn.antt =====
-- web/src/lib/utils.ts: distinguished names in URLs, and their comparison.
pub mod Base64
pub mod Codec
pub mod Encoding
pub mod UrlAlphabet
mod Padding
pub mod RoundTrip
pub mod Compare
mod Tests
