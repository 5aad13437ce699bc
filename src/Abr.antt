-- ===== src/Abr.antt =====
-- src/abr: the DASH manifest reader and its text helpers.
pub mod Replace
pub mod Segments
pub mod Tests
