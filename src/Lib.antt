-- ===== src/Lib.antt =====
-- vt-muxer carries many logical connections over one TCP stream. A connection is known by a socket
-- address. What it writes is cut into frames: a header of 20 bytes (the address as 16 octets and a
-- port, and a length, both numbers in network order) and up to 65535 bytes of payload. A frame
-- without payload opens a connection or closes it.
--
-- The parts, and the files that model them:
--   Common        shared names, lists over the native numbers, byte strings, `Poll` and `io::Result`
--   Integers      src/integers.rs: `NetworkOrderU16`, its bytes and its comparisons
--   ThinAddr      src/thin_addr.rs: `IpAddr` and `SocketAddr`; ThinAddr/Std is what they use of
--                 `std::net`
--   Protocol      src/protocol.rs: `MuxFrameHeader`
--   PacketBuffer  src/packet_buffer.rs: the outgoing frame of a connection, which may still be
--                 filled by `push` while its first bytes are on the wire
--   Runtime       the parameters for tokio: the shared writer behind its mutex, guards, lock futures,
--                 wakers. `IsRuntime` says what the code relies on
--   PollMutex     src/poll_mutex.rs: the lock that is taken by polling
--   Write         src/write.rs: `WriteInner`. State has the types and the handshake, Flush
--                 `flush_buf`, Step the loop of `poll_write`, Poll `poll_write` and `poll_flush`
--                 (`flush`), Shutdown `poll_shutdown`, Drop the task of a dropped connection. The
--                 other children prove: Stream says what is on the wire and what is still held, Session
--                 runs writes and flushes in any order, and the shutdown; Live is about a
--                 flush that nothing holds up
--   ReadBuffer    src/read/read_buffer.rs: the bytes that have arrived and are not read yet. The reader
--                 and the caller's `ReadBuf` are parameters; Steps runs fills and reads in any order
--   Read          src/read.rs: the shared reader, which hands the payload of each frame to the buffer of
--                 its connection. Shared has the state, the socket map, `insert` and `remove`, Poll the
--                 loop; the entries behind `Arc` and `Weak` are a store, whose addresses are numbers.
--                 Inner is `poll_read` of one connection; the other children are about the map, the
--                 entries, the two kinds of rounds and the loop. Answer and Header
--                 compare a round with what the stream answered
--   Wire          what both sides have to agree on: the frames of all connections, and what is owed to
--                 one of them. Merge picks the frames of one writer; Unique compares the
--                 bytes of frames
--   Demux         the shared reader against Wire: `TrackedAt` ties a state to the frames to come, for
--                 one connection. Payload, Header and Loop follow a poll, Reads and Open the other
--                 operations, Incoming a connection that the peer opens, Run any sequence of them
--   Construct     src/constructor.rs: values that are built in place
--   Mux           src/lib.rs: `MuxConnection`, its drop, and `MuxPipe`; Listen has `MuxListener`. A Link
--                 is the two sides of the TCP stream, which all of them share. Sides says
--                 which side an operation leaves alone, Connect and Accept how `add_connection` and a
--                 poll of `accept` end, Carried follows the bytes from a connection on one side to the
--                 one that its peer accepts
--   Samples       a scripted network and a packet, for the tests
--
-- A `u8`, `u16` or `u32` is a number with its range in the invariants; casts and the checked or
-- unchecked additions are written out. A record of the model is the struct of the same name; a method
-- that changes `self` returns the new record. Loops take fuel and end as `exhausted` without it:
-- `flush_buf` gets one round more than the packet has bytes, since each round that goes on sends a
-- byte; `poll_write` two rounds for each byte of the slice and two more, since a round takes a byte or
-- ends a flush; `poll_shutdown` four rounds, one for each state; the loop of the shared
-- reader, which is `none` without fuel, two rounds for each byte of the stream and two more, since a
-- round takes a byte or ends a send to the listener. That this is enough is part of the
-- theorems. A panic is the outcome `panicked`.
--
-- Not modelled: Debug output, and the deallocation of the read buffer, which has no result. A future of
-- src/lib.rs that is dropped before its end: `add_connection` is awaited to its end, and `accept` is its
-- start and its polls. An awaited lock or write that never ends is no run of the model: the parameters
-- for `lock` and `write_all` give their result, so nothing is shown of whether `handshake` and the task
-- of a dropped connection come to an end. tokio, flume, parking_lot and the allocator are parameters with their
-- documented behaviour as hypotheses.
pub mod Common
pub mod Integers
pub mod ThinAddr
pub mod Protocol
pub mod PacketBuffer
pub mod Runtime
pub mod PollMutex
pub mod Write
pub mod Wire
pub mod Demux
pub mod Construct
pub mod Mux
pub mod ReadBuffer
pub mod Samples
pub mod Read
