-- ===== src/Write.antt =====
-- src/write.rs: the writing side of one connection.
pub mod State
pub mod Flush
pub mod Step
pub mod Poll
pub mod Shutdown
pub mod Drop
pub mod Progress
pub mod Stream
pub mod Accept
pub mod Ended
pub mod Written
pub mod Retry
pub mod Session
pub mod Live
pub mod Settled
pub mod Drained
pub mod Closed
pub mod Finish
pub mod Dropped
pub mod Opened
mod Tests
