-- ===== src/Modem.antt =====
-- The modems that the scheduler knows, and the choice of one for a job: faxd/Modem.h and faxd/Modem.c++.
pub mod Capable
pub mod Model
pub mod Listed
pub mod Order
pub mod Find
pub mod Choice
pub mod Steps
pub mod Assign
mod Tests
