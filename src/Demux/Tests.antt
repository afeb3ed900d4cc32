-- ===== src/Demux/Tests.antt =====
-- src/read.rs over a stream that opens nothing, carries three bytes to one connection and closes it.
use vt_muxer.Common.{ℕ, ◌≡◌, ◌<◌, refl, ap, Option, List, [], ◌∷◌, ◌++◌, arith}
use vt_muxer.Common.Poll.{Poll, IoResult}
use vt_muxer.ThinAddr.{SocketAddr}
use vt_muxer.ThinAddr
use vt_muxer.ThinAddr.Bytes
use vt_muxer.Integers
use vt_muxer.Protocol
use vt_muxer.ReadBuffer
use vt_muxer.Wire.{AreFrames, encode, until_close, owed}
use vt_muxer.Wire.Merge.{payloads}
use vt_muxer.Write.Stream.{frame, joined}
use vt_muxer.Samples.Packet.{peer, three-IsPacket}
use vt_muxer.Samples.Stream.{stream, list_buf, list_buf-IsReadBuf}
use vt_muxer.Samples.Source.{source, source-IsSource}
use vt_muxer.Samples.Frames.{chunks, sent_frames, entry_of, lost_of, answer_of}
use vt_muxer.Read.Shared.{new_packet, LockedReaderState, new, add_connection}
use vt_muxer.Read.Poll.{poll}
use vt_muxer.Read.Inner.{poll_read}
use vt_muxer.Read.Attach.{new-IsShared, Attached, add_connection-Attached}
use vt_muxer.Demux.Run.{Seen, polls, reads, Reach, here, next, Owes}
use vt_muxer.Demux.End.{Reach-Owes}
use vt_muxer.Demux.Deliver.{added-Owes, delivered}

abbrev before : LockedReaderState source
before = new source (encode sent_frames)

abbrev added : LockedReaderState source
added = (add_connection source before peer).1

abbrev polled : LockedReaderState source
polled = (poll source 60 added 9).1

abbrev first_read : Option (Poll (IoResult (Unit {0}))) × LockedReaderState source × (List ℕ × ℕ)
first_read = poll_read source list_buf 60 polled 9 0 (entry_of (polled.entries 0)) ([], 8)

abbrev second_read : Option (Poll (IoResult (Unit {0}))) × LockedReaderState source × (List ℕ × ℕ)
second_read =
    poll_read source list_buf 60 first_read.1 9 0 (entry_of (first_read.1.entries 0)) ([], 8)

abbrev fresh_seen : Seen source stream list_buf
fresh_seen = record { shared = added; out = [] }

abbrev polled_seen : Seen source stream list_buf
polled_seen = record { shared = polled; out = [] }

abbrev read_seen : Seen source stream list_buf
read_seen = record { shared = first_read.1; out = 1 ∷ 2 ∷ 3 ∷ [] }

-- The shared reader takes the frames in, and the connection reads the three bytes.
run_example : Reach source stream list_buf 0 fresh_seen read_seen
unfolding poll poll_read add_connection new ReadBuffer.new encode frame Protocol.header_bytes
    ThinAddr.bytes_of Protocol.len Integers.get Integers.eq Protocol.header_of_bytes Integers.new
    ThinAddr.eq ThinAddr.eq_bytes Protocol.addr Bytes.of_bytes ReadBuffer.fill_buffer
    ReadBuffer.read payloads owed until_close joined
run_example =
    next
      (next {z = fresh_seen} {w = polled_seen} here (
        polls 60 9 (poll source 60 added 9).0 refl (λ h. absurd (omega (arith, ap lost_of h)))
          refl))
      (reads 60 9 (entry_of (polled.entries 0)) ([], 8) first_read.2 (1 ∷ 2 ∷ 3 ∷ []) first_read.0
        refl refl (λ h. absurd (omega (arith, ap answer_of h))) refl refl)

three_sent : payloads peer sent_frames ≡ chunks ++ ([] ∷ [])
unfolding poll poll_read add_connection new ReadBuffer.new encode frame Protocol.header_bytes
    ThinAddr.bytes_of Protocol.len Integers.get Integers.eq Protocol.header_of_bytes Integers.new
    ThinAddr.eq ThinAddr.eq_bytes Protocol.addr Bytes.of_bytes ReadBuffer.fill_buffer
    ReadBuffer.read payloads owed until_close joined
three_sent = refl

sent_frames-AreFrames : AreFrames sent_frames
sent_frames-AreFrames =
    let valid = three-IsPacket.addr_valid in
    (
      record { socket_valid = valid; short = omega arith },
      (record { socket_valid = valid; short = omega arith }, tt),
    )

add_connection-Attached_example :
    let (o, l') = add_connection source before peer in Attached source stream before peer o l'
add_connection-Attached_example =
    add_connection-Attached source stream source-IsSource before peer
      (new-IsShared source stream (encode sent_frames))

fresh_seen-Owes : Owes source stream list_buf peer 0 (1 ∷ 2 ∷ 3 ∷ []) fresh_seen
unfolding poll poll_read add_connection new ReadBuffer.new encode frame Protocol.header_bytes
    ThinAddr.bytes_of Protocol.len Integers.get Integers.eq Protocol.header_of_bytes Integers.new
    ThinAddr.eq ThinAddr.eq_bytes Protocol.addr Bytes.of_bytes ReadBuffer.fill_buffer
    ReadBuffer.read payloads owed until_close joined new_packet
fresh_seen-Owes =
    added-Owes source stream list_buf source-IsSource before added peer 0 [] sent_frames
      (new-IsShared source stream (encode sent_frames)) sent_frames-AreFrames refl tt tt refl

Reach-Owes_example : Owes source stream list_buf peer 0 (1 ∷ 2 ∷ 3 ∷ []) read_seen
Reach-Owes_example =
    Reach-Owes source stream list_buf source-IsSource list_buf-IsReadBuf run_example fresh_seen-Owes

enough : 0 < 60
enough = omega arith

delivered_example : read_seen.out ≡ joined chunks
unfolding poll poll_read add_connection new ReadBuffer.new encode frame Protocol.header_bytes
    ThinAddr.bytes_of Protocol.len Integers.get Integers.eq Protocol.header_of_bytes Integers.new
    ThinAddr.eq ThinAddr.eq_bytes Protocol.addr Bytes.of_bytes ReadBuffer.fill_buffer
    ReadBuffer.read payloads owed until_close joined new_packet
delivered_example =
    delivered source stream list_buf source-IsSource list_buf-IsReadBuf before added peer 0 []
      sent_frames chunks [] read_seen (new-IsShared source stream (encode sent_frames))
      sent_frames-AreFrames refl tt tt
      ((omega arith, omega arith, (omega arith, (omega arith, (omega arith, tt)))), tt) refl refl
      run_example 60 9 (entry_of (first_read.1.entries 0)) ([], 8) second_read.2 second_read.1 refl
      enough (omega arith) refl refl
