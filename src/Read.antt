-- ===== src/Read.antt =====
-- src/read.rs: the shared reader of a TCP stream, which hands what arrives to its connections.
pub mod Shared
pub mod Poll
pub mod Entries
pub mod Payload
pub mod Answer
pub mod Map
pub mod Dispatch
pub mod Header
pub mod Valid
pub mod Rounds
pub mod Loop
pub mod Inner
pub mod Delivery
pub mod Frame
mod Tests
pub mod Attach
