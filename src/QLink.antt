-- ===== src/QLink.antt =====
-- The doubly-linked lists of the queues: faxd/QLink.h and faxd/QLink.c++.
pub mod Store
pub mod Ring
pub mod Remove
mod Tests
