-- ===== src/Samples.antt =====
-- Data that the tests of several modules share.
pub mod Net
pub mod Packet
pub mod Stream
pub mod Source
pub mod Frames
pub mod Served
