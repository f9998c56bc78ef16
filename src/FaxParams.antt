-- ===== src/FaxParams.antt =====
-- The DIS and DCS bit strings of T.30: libhylafax/FaxParams.h and libhylafax/FaxParams.c++.
pub mod Bits
pub mod View
pub mod SetBit
mod ExtendLoops
pub mod Extended
pub mod Unsetting
pub mod TwoDim
pub mod Ascii
pub mod Compare
pub mod Setup
pub mod Whole
mod Tests
