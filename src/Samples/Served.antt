-- ===== src/Samples/Served.antt =====
-- A shared reader over a stream that opens a connection, carries three bytes to it and closes it.
use vt_muxer.Common.{ℕ, refl, ap, Option, some, List, [], ◌∷◌, arith}
use vt_muxer.Common.Poll.{Poll, ready, IoResult}
use vt_muxer.ThinAddr
use vt_muxer.ThinAddr.Bytes
use vt_muxer.Integers
use vt_muxer.Protocol
use vt_muxer.ReadBuffer
use vt_muxer.Wire.{AreFrames, encode, until_close, owed}
use vt_muxer.Wire.Merge.{payloads}
use vt_muxer.Write.Stream.{frame, joined}
use vt_muxer.Samples.Packet.{peer, three-IsPacket}
use vt_muxer.Samples.Stream.{stream, list_buf}
use vt_muxer.Samples.Source.{source}
use vt_muxer.Samples.Frames.{sent_frames, entry_of, lost_of, answer_of}
use vt_muxer.Read.Shared.{LockedReaderState, new}
use vt_muxer.Read.Poll.{poll, poll_once}
use vt_muxer.Read.Inner.{poll_read}
use vt_muxer.Demux.{IsListening}
use vt_muxer.Demux.Incoming.{opening}
use vt_muxer.Demux.Run.{Seen, polls, reads, Reach, here, next}

abbrev pub before : LockedReaderState source
before = new source (encode (opening source stream peer ∷ sent_frames))

abbrev pub opened : LockedReaderState source
opened = (poll_once source before 9).1

abbrev pub polled : LockedReaderState source
polled = (poll source 90 opened 9).1

abbrev pub first_read :
    Option (Poll (IoResult (Unit {0}))) × LockedReaderState source × (List ℕ × ℕ)
first_read = poll_read source list_buf 90 polled 9 0 (entry_of (polled.entries 0)) ([], 8)

abbrev pub second_read :
    Option (Poll (IoResult (Unit {0}))) × LockedReaderState source × (List ℕ × ℕ)
second_read =
    poll_read source list_buf 90 first_read.1 9 0 (entry_of (first_read.1.entries 0)) ([], 8)

abbrev pub opened_seen : Seen source stream list_buf
opened_seen = record { shared = opened; out = [] }

abbrev pub polled_seen : Seen source stream list_buf
polled_seen = record { shared = polled; out = [] }

abbrev pub read_seen : Seen source stream list_buf
read_seen = record { shared = first_read.1; out = 1 ∷ 2 ∷ 3 ∷ [] }

pub opened_run : Reach source stream list_buf 0 opened_seen read_seen
unfolding poll poll_once poll_read new ReadBuffer.new encode frame Protocol.header_bytes
    ThinAddr.bytes_of Protocol.len Integers.get Integers.eq Protocol.header_of_bytes Integers.new
    ThinAddr.eq ThinAddr.eq_bytes Protocol.addr Bytes.of_bytes ReadBuffer.fill_buffer
    ReadBuffer.read payloads owed until_close joined
opened_run =
    next
      (next {z = opened_seen} {w = polled_seen} here (
        polls 90 9 (poll source 90 opened 9).0 refl (λ h. absurd (omega (arith, ap lost_of h)))
          refl))
      (reads 90 9 (entry_of (polled.entries 0)) ([], 8) first_read.2 (1 ∷ 2 ∷ 3 ∷ []) first_read.0
        refl refl (λ h. absurd (omega (arith, ap answer_of h))) refl refl)

pub frames-AreFrames : AreFrames (opening source stream peer ∷ sent_frames)
frames-AreFrames =
    let valid = three-IsPacket.addr_valid in
    (
      record { socket_valid = valid; short = omega arith },
      (
        record { socket_valid = valid; short = omega arith },
        (record { socket_valid = valid; short = omega arith }, tt),
      ),
    )

pub source-IsListening : IsListening source stream
source-IsListening f k w j h = absurd (omega (arith, ap back h))
  where
    back : Poll (Option ℕ) → ℕ
    back (ready (some i)) = 1
    back _ = 0
