-- ===== src/DestInfo.antt =====
-- The batches and queues of a destination: faxd/DestInfo.h, faxd/DestInfo.c++ and faxd/QLink.c++.
pub mod Active
pub mod Count
mod Tests
