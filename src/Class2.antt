-- ===== src/Class2.antt =====
-- The Class 2 parameters of a session: libhylafax/Class2Params.c++ and libhylafax/class2.h.
pub mod Caps
pub mod Session
pub mod Update
pub mod Signals
pub mod Enabled
pub mod Decoded
pub mod Signal
pub mod Received
pub mod Frames
pub mod Dcs
pub mod Sending
mod Tests
