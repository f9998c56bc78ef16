-- ===== src/Range.antt =====
-- The page ranges of a job: libhylafax/Range.c++.
pub mod Model
pub mod Scan
pub mod Bits
pub mod Parse
mod Tests
