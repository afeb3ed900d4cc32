-- ===== src/Demux/ServeTests.antt =====
-- src/read.rs over a stream that opens a connection, carries three bytes to it and closes it.
use vt_muxer.Common.{◌≡◌, ◌<◌, refl, [], ◌∷◌, arith}
use vt_muxer.ThinAddr
use vt_muxer.ThinAddr.Bytes
use vt_muxer.Integers
use vt_muxer.Protocol
use vt_muxer.ReadBuffer
use vt_muxer.Wire.{encode, until_close, owed}
use vt_muxer.Wire.Merge.{payloads}
use vt_muxer.Write.Stream.{frame, joined}
use vt_muxer.Samples.Packet.{peer}
use vt_muxer.Samples.Stream.{stream, list_buf, list_buf-IsReadBuf}
use vt_muxer.Samples.Source.{source, source-IsSource}
use vt_muxer.Samples.Frames.{chunks, sent_frames, entry_of}
use vt_muxer.Read.Shared.{new_packet, new}
use vt_muxer.Read.Poll.{poll, poll_once}
use vt_muxer.Read.Inner.{poll_read}
use vt_muxer.Read.Attach.{new-IsShared}
use vt_muxer.Demux.Incoming.{opening}
use vt_muxer.Demux.Serve.{opened_delivered}
use vt_muxer.Samples.Served.{
  before, opened, first_read, second_read, read_seen, opened_run, frames-AreFrames,
  source-IsListening,
}

enough : 0 < 90
enough = omega arith

opened_delivered_example : read_seen.out ≡ joined chunks
unfolding poll poll_once poll_read new ReadBuffer.new encode frame Protocol.header_bytes
    ThinAddr.bytes_of Protocol.len Integers.get Integers.eq Protocol.header_of_bytes Integers.new
    ThinAddr.eq ThinAddr.eq_bytes Protocol.addr Bytes.of_bytes ReadBuffer.fill_buffer
    ReadBuffer.read payloads owed until_close joined new_packet
opened_delivered_example =
    opened_delivered source stream list_buf source-IsSource list_buf-IsReadBuf source-IsListening
      before opened peer sent_frames [] 0 9 (poll_once source before 9).0 chunks [] read_seen
      (new-IsShared source stream (encode (opening source stream peer ∷ sent_frames)))
      frames-AreFrames refl refl refl refl refl
      ((omega arith, omega arith, (omega arith, (omega arith, (omega arith, tt)))), tt) refl
      opened_run 90 9 (entry_of (first_read.1.entries 0)) ([], 8) second_read.2 second_read.1 refl
      enough (omega arith) refl refl
