-- ===== src/JobQueue.antt =====
-- The queues of jobs of the scheduler: faxd/Job.c++ and faxd/faxQueueApp.c++.
pub mod Model
pub mod Order
pub mod Steps
pub mod FirstJobs
pub mod Heads
mod Tests
