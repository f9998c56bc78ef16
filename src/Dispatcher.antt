-- ===== src/Dispatcher.antt =====
-- The timers and the children of the dispatcher: libhylafax/Dispatcher.c++.
pub mod Timers
pub mod Expire
pub mod Handlers
pub mod Children
mod Tests
