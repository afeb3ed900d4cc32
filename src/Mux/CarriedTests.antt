-- ===== src/Mux/CarriedTests.antt =====
-- src/lib.rs from end to end: three bytes that one side writes and the other reads.
use vt_muxer.Common.{ℕ, ◌≡◌, ◌<◌, refl, false, [], ◌∷◌, replicate, length-replicate, arith}
use vt_muxer.Common.Poll.{ready, ok}
use vt_muxer.ThinAddr.{SocketAddr}
use vt_muxer.Samples.Packet.{peer, replicate-AreBytes}
use vt_muxer.Samples.Net.{Net, net, net-IsRuntime, net-IsPrompt}
use vt_muxer.Samples.Stream.{stream, list_buf, list_buf-IsReadBuf}
use vt_muxer.Samples.Source.{source, source-IsSource}
use vt_muxer.PacketBuffer
use vt_muxer.Integers
use vt_muxer.ReadBuffer
use vt_muxer.Protocol
use vt_muxer.ThinAddr
use vt_muxer.ThinAddr.Bytes
use vt_muxer.PollMutex
use vt_muxer.Construct.{box_new}
use vt_muxer.Read.Shared
use vt_muxer.Write.State
use vt_muxer.Write.Flush
use vt_muxer.Write.Stream.{frame}
use vt_muxer.Wire.{encode}
use vt_muxer.Wire.Merge.{frames_of, payloads}
use vt_muxer.Samples.Frames.{sent_frames, entry_of}
use vt_muxer.Samples.Served.{
  before, opened, first_read, second_read, read_seen, opened_run, frames-AreFrames,
  source-IsListening,
}
use vt_muxer.Read.Attach.{new-IsShared}
use vt_muxer.Read.Poll.{poll, poll_once}
use vt_muxer.Read.Inner.{poll_read}
use vt_muxer.Demux.Incoming.{opening}
use vt_muxer.Mux.Carried.{carried}
use vt_muxer.Write.State.{Outcome, returns, WriteInner}
use vt_muxer.Write.Poll.{poll_write}
use vt_muxer.Write.Shutdown.{poll_shutdown}
use vt_muxer.Write.Session.{Writer, Session, Took, here, next, writes, Closing, closes}
use vt_muxer.Mux.{Link, MuxConnection, MuxPipe, add_connection}

abbrev empty_link : Link net source
empty_link = record {
  shared = Shared.new source [];
  wire = record { answers = []; held = false; log = [] };
}

abbrev pipe : MuxPipe net source
pipe = record { write = tt }

abbrev spare_writer : WriteInner net
spare_writer = State.init net [] peer (PollMutex.new net tt)

abbrev connection_of : Outcome (MuxConnection net source) → MuxConnection net source
connection_of (returns (ready (ok c))) = c
connection_of _ = record { write = spare_writer; read = 0 }

abbrev added : Outcome (MuxConnection net source) × Link net source
added = add_connection net source pipe (replicate 65535 0) peer empty_link

abbrev connection : MuxConnection net source
connection = connection_of added.0

abbrev writer : Writer net
writer = record { inner = connection.write; world = added.1.wire }

abbrev wrote : Outcome ℕ × WriteInner net × Net
wrote = poll_write net writer.inner 9 (1 ∷ 2 ∷ 3 ∷ []) writer.world

abbrev shut : Outcome (Unit {0}) × WriteInner net × Net
shut = poll_shutdown net wrote.1 9 wrote.2

added_fine : added ≡ (returns (ready (ok connection)), added.1)
unfolding add_connection Shared.add_connection Shared.new ReadBuffer.new State.handshake State.init
    PacketBuffer.init PacketBuffer.is_empty Integers.new Integers.get box_new State.is_buffering
    State.greet
added_fine = refl

abbrev wrote_state : Writer net
wrote_state = record { inner = wrote.1; world = wrote.2 }

abbrev end_state : Writer net
end_state = record { inner = shut.1; world = shut.2 }

abbrev session : Session net writer wrote_state
unfolding add_connection Shared.add_connection Shared.new ReadBuffer.new State.handshake State.init
    PacketBuffer.init PacketBuffer.is_empty Integers.new Integers.get box_new State.is_buffering
    State.greet poll_write PacketBuffer.push PacketBuffer.is_full PacketBuffer.max_len
    PacketBuffer.push_count
session =
    next here (writes 9 (1 ∷ 2 ∷ 3 ∷ []) 3 (omega arith, (omega arith, (omega arith, tt))) refl)

abbrev shutdown : Closing net end_state wrote_state
unfolding add_connection Shared.add_connection Shared.new ReadBuffer.new State.handshake State.init
    PacketBuffer.init PacketBuffer.is_empty Integers.new Integers.get box_new State.is_buffering
    State.greet poll_write PacketBuffer.push PacketBuffer.is_full PacketBuffer.max_len
    PacketBuffer.push_count poll_shutdown PacketBuffer.bytes PollMutex.poll_lock PollMutex.lock
    PollMutex.new PacketBuffer.append_to Flush.flush_buf ThinAddr.bytes_of PacketBuffer.copy_to
    PacketBuffer.bytes_from Flush.add_count PacketBuffer.clear
shutdown = closes 9 refl

all_sent : encode (frames_of peer ([] ∷ payloads peer sent_frames)) ≡ shut.2.log
unfolding add_connection Shared.add_connection Shared.new ReadBuffer.new State.handshake State.init
    PacketBuffer.init PacketBuffer.is_empty Integers.new Integers.get box_new State.is_buffering
    State.greet poll_write PacketBuffer.push PacketBuffer.is_full PacketBuffer.max_len
    PacketBuffer.push_count poll_shutdown PacketBuffer.bytes PollMutex.poll_lock PollMutex.lock
    PollMutex.new PacketBuffer.append_to Flush.flush_buf ThinAddr.bytes_of PacketBuffer.copy_to
    PacketBuffer.bytes_from Flush.add_count PacketBuffer.clear encode frame payloads ThinAddr.eq
    ThinAddr.eq_bytes Integers.eq Protocol.header_bytes
all_sent = refl

enough : 0 < 90
enough = omega arith

carried_example : Took net session read_seen.out
unfolding poll poll_once poll_read Shared.new ReadBuffer.new encode frame Protocol.header_bytes
    ThinAddr.bytes_of Protocol.len Integers.get Integers.eq Protocol.header_of_bytes Integers.new
    ThinAddr.eq ThinAddr.eq_bytes Protocol.addr Bytes.of_bytes ReadBuffer.fill_buffer
    ReadBuffer.read Shared.new_packet
carried_example =
    carried net source stream net-IsRuntime net-IsPrompt source-IsSource pipe (replicate 65535 0)
      peer (length-replicate 65535 (let z : ℕ = 0 in z)) (replicate-AreBytes 65535 0 (omega arith))
      (omega arith) empty_link added.1 connection (new-IsShared source stream []) refl added_fine
      source stream list_buf session shutdown source-IsSource list_buf-IsReadBuf source-IsListening
      before opened sent_frames [] 0 9 (poll_once source before 9).0 read_seen
      (new-IsShared source stream (encode (opening source stream peer ∷ sent_frames)))
      frames-AreFrames all_sent refl refl refl refl refl opened_run 90 9
      (entry_of (first_read.1.entries 0)) ([], 8) second_read.2 second_read.1 refl enough
      (omega arith) refl refl
