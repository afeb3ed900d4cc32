-- ===== src/Read/Tests.antt =====
-- src/read.rs over a stream of bytes in memory.
use vt_muxer.ThinAddr
use vt_muxer.ThinAddr.{SocketAddr}
use vt_muxer.Common.{
  Bool-cases, inl, inr, ◌≡◌, ◌<◌, ℕ, zero, suc, min, refl, ap, Option, none, some, [], ◌∷◌, ◌++◌,
  length, take, drop, replicate, arith,
}
use vt_muxer.ReadBuffer.{ReadBuffer, bytes}
use vt_muxer.Samples.Source.{source, source-IsSource}
use vt_muxer.Samples.Packet.{peer}
use vt_muxer.Protocol
use vt_muxer.Samples.Stream.{stream}
use vt_muxer.Read.Shared.{ReaderEntry, SharedReaderState, LockedReaderState, lookup, upgrade}
use vt_muxer.Samples.Stream.{list_buf, list_buf-IsReadBuf}
use vt_muxer.Read.Inner.{poll_read}
use vt_muxer.Read.Delivery.{ReadEnded, poll_read-Ended}
use vt_muxer.Read.Valid.{IsShared}
use vt_muxer.Read.Loop.{Returned, poll-Returned}
use vt_muxer.Read.Poll.{poll, poll_payload, poll_next_packet}
use vt_muxer.Read.Entries.{ValidAt}
use vt_muxer.Read.Payload.{PayloadEnded}
use vt_muxer.Read.Answer.{PayloadTold, poll_payload-Answered}
use vt_muxer.Read.Header.{HeaderEnded, HeaderTold, header_window, poll_next_packet-Answered}

-- One entry, with two bytes unread, for one address.
abbrev some_buffer : ReadBuffer
some_buffer = record {
  cells = 7 ∷ 8 ∷ 0 ∷ 0 ∷ 0 ∷ 0 ∷ [];
  capacity = 6;
  pos = 0;
  filled = 2;
  initialized = 2;
}

abbrev one_entry : ℕ → Option (ReaderEntry source)
one_entry zero = some (record { reader_pipe_waker = 1; waiting_waker = 2; buffer = some_buffer })
one_entry (suc n) = none

one_entry-ValidAt : (j : ℕ) → ValidAt source (one_entry j)
one_entry-ValidAt zero = record {
  allocated = refl;
  pos_in = omega arith;
  filled_in = omega arith;
  initialized_in = omega arith;
}
one_entry-ValidAt (suc n) = tt

-- Three bytes of a payload are to come, and the stream has five.
abbrev amid_payload : LockedReaderState source
amid_payload = record {
  socket_map = (peer, 0) ∷ [];
  state = SharedReaderState.read peer 3;
  entries = one_entry;
  fresh = 1;
  world = 1 ∷ 2 ∷ 3 ∷ 4 ∷ 5 ∷ [];
}

poll_payload-Answered_example :
    let (o, l') = poll_payload source amid_payload 9 peer 3 in
    let target = upgrade source one_entry (lookup source amid_payload.socket_map peer) in
    PayloadEnded source stream amid_payload target peer 3 o l'
    × PayloadTold source stream amid_payload 9 target peer 3 o l'
poll_payload-Answered_example =
    poll_payload-Answered source stream source-IsSource amid_payload 9 peer 3 one_entry-ValidAt

-- Four bytes of a header are there, and the rest is in the stream.

abbrev amid_header : LockedReaderState source
amid_header = record amid_payload {
  state = SharedReaderState.next_packet (take 4 (replicate 20 0)) 4;
  world = drop 4 (replicate 20 0);
}

poll_next_packet-Answered_example :
    let (o, l') = poll_next_packet source amid_header 9 (take 4 (replicate 20 0)) 4 in
    HeaderEnded source stream amid_header (take 4 (replicate 20 0)) 4 o l'
    × HeaderTold source stream amid_header
        (source.poll_read 9 amid_header.world (header_window source stream 4)).0
        o
        l'
unfolding replicate
poll_next_packet-Answered_example =
    poll_next_packet-Answered source stream source-IsSource amid_header 9 (take 4 (replicate 20 0))
      4 (omega arith) (omega arith)

number : Option ℕ → ℕ
number none = 2
number (some j) = j

one_known : (b : SocketAddr) (j : ℕ) → lookup source ((peer, 0) ∷ []) b ≡ some j → j < 1
unfolding lookup number
one_known b j h = elim (Bool-cases (ThinAddr.eq b peer)) [
  | inl same ↦ omega (arith, ap number (rw same at h))
  | inr other ↦ absurd (some_j j (rw other at h))
]
  where
    some_j : (j : ℕ) → none ≡ some j → ⊥
    some_j j e = grind (arith, e)

-- The payload ends, and what follows it is no whole header.
amid_payload-IsShared : IsShared source stream amid_payload
amid_payload-IsShared = record {
  buffers = one_entry-ValidAt;
  known = one_known;
  state_valid = omega arith;
}

poll-Returned_example : Returned source stream (poll source 11 amid_payload 9)
poll-Returned_example =
    poll-Returned source stream source-IsSource 11 amid_payload 9 amid_payload-IsShared
      (omega arith)

-- The connection has room for four bytes, and two are unread.
abbrev its_entry : ReaderEntry source
its_entry = record { reader_pipe_waker = 1; waiting_waker = 2; buffer = some_buffer }

poll_read-Ended_example :
    let (a, l', o') = poll_read source list_buf 11 amid_payload 9 0 its_entry ([], 4) in
    ReadEnded source stream list_buf amid_payload 0 its_entry
      ([], 4)
      (min 4 (length (bytes some_buffer)))
      a
      l'
      o'
poll_read-Ended_example =
    poll_read-Ended source stream list_buf source-IsSource list_buf-IsReadBuf 11 amid_payload 9 0
      its_entry ([], 4) amid_payload-IsShared refl (omega arith)

-- A closing header is next in the stream, and a byte behind it.
abbrev at_header : LockedReaderState source
at_header = record amid_payload {
  state = SharedReaderState.next_packet [] 0;
  world = Protocol.header_bytes (Protocol.empty peer) ++ (5 ∷ []);
}
