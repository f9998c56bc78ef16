-- ===== src/HdlcFrame.antt =====
-- The frames of the T.30 protocol: faxd/HDLCFrame.h and faxd/HDLCFrame.c++.
pub mod Crc
pub mod Residue
pub mod Buffer
pub mod Content
pub mod Check
mod Tests
pub mod DataWord
pub mod Send
