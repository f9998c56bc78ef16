-- ===== src/TimeOfDay.antt =====
-- The times at which a job may be sent: libhylafax/TimeOfDay.h and libhylafax/TimeOfDay.c++.
pub mod Tod
pub mod NextDay
pub mod NextTime
pub mod Soonest
pub mod Parse
mod ParseDays
mod ParseValid
mod Tests
