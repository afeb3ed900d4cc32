-- ===== src/Write/Tests.antt =====
-- src/write.rs over a scripted network.
use vt_muxer.Common.{
  ℕ, ◌≤◌, ◌≡◌, refl, inl, true, false, none, some, List, [], ◌∷◌, ◌++◌, arith, length, take,
  replicate, length-replicate,
}
use vt_muxer.Common.Poll.{ready, pending, ok}
use vt_muxer.Integers
use vt_muxer.PacketBuffer
use vt_muxer.PacketBuffer.Content.{payload}
use vt_muxer.PacketBuffer.Content.{length-bytes}
use vt_muxer.Samples.Net.{Net, net, net-IsRuntime, net-IsPrompt, eager_net, eager_net-IsRuntime}
use vt_muxer.Samples.Packet.{peer, three, three-IsPacket, replicate-AreBytes}
use vt_muxer.PollMutex.{PollMutex}
use vt_muxer.PollMutex
use vt_muxer.Write.Live.{IsEager, Drained, flush-Drained}
use vt_muxer.Write.State.{returns, WriteState, WritePipeState, WriteInner, init, handshake}
use vt_muxer.Write.Flush.{flush_buf, u32_limit}
use vt_muxer.Write.Poll.{poll_write, flush}
use vt_muxer.Write.Shutdown.{poll_shutdown}
use vt_muxer.Write.Drop.{drop_inner}
use vt_muxer.Write.Progress.{Flushed, flush_buf-Flushed}
use vt_muxer.Write.Stream.{frames, joined}
use vt_muxer.Write.Written.{IsWriting, Written, poll_write-Written}
use vt_muxer.Write.Retry.{spare, poll_write_keeps_pending}
use vt_muxer.Write.Drained.{FlushEnded, flush-FlushEnded}
use vt_muxer.Write.Finish.{Shut, poll_shutdown-Shut}
use vt_muxer.Write.Dropped.{DropOut, drop_inner-DropOut}
use vt_muxer.Write.Opened.{Greeted, handshake-Greeted}

-- Five bytes of the packet are on the wire; the writer takes three more and then makes us wait.
abbrev halfway : Net
halfway = record {
  answers = ready (ok 3) ∷ pending ∷ [];
  held = false;
  log = take 5 (PacketBuffer.bytes three);
}

abbrev unlocked : PollMutex net
unlocked = record { mutex = tt; fut = none }

abbrev in_flight : WriteInner net
in_flight = record {
  write_lock = unlocked;
  state = WritePipeState.writing 0 (WriteState.flushing tt 5);
  buffer = three;
}

three_bytes : List ℕ
three_bytes = 1 ∷ 2 ∷ 3 ∷ []

five_in : 5 ≤ length (PacketBuffer.bytes three)
five_in = omega (arith, length-bytes three-IsPacket)

in_flight-IsWriting : IsWriting net [] three_bytes peer in_flight halfway
unfolding frames joined three_bytes Integers.get PacketBuffer.packet_size
in_flight-IsWriting = record {
  waker = 0;
  phase = WriteState.flushing tt 5;
  is_writing = refl;
  streams = record {
    valid = three-IsPacket;
    addr = refl;
    mark = five_in;
    chunks = [];
    chunks_valid = tt;
    on_wire = refl;
    carried = refl;
  };
  busy = omega arith;
}

flush_buf-Flushed_example :
    Flushed net net-IsRuntime three [] 5 (flush_buf net 9 three tt (u32_limit net) 5 halfway)
flush_buf-Flushed_example =
    flush_buf-Flushed net net-IsRuntime three [] 9 tt (u32_limit net) 5 halfway five_in
      (omega (arith, length-bytes three-IsPacket, three_size)) refl
  where
    three_size : PacketBuffer.packet_size three ≡ 3
    three_size = unfold PacketBuffer.packet_size Integers.get in refl

poll_write-Written_example :
    let (o, i, w) = poll_write net in_flight 9 (7 ∷ 8 ∷ []) halfway in
    Written net [] three_bytes peer (7 ∷ 8 ∷ []) o i w
poll_write-Written_example =
    poll_write-Written net net-IsRuntime [] three_bytes peer (7 ∷ 8 ∷ []) in_flight 9 halfway
      in_flight-IsWriting (omega arith)

-- A connection with room for 65532 bytes, offered 65534, while another one holds the writer.
abbrev contended : Net
contended = record { answers = []; held = true; log = [] }

abbrev at_rest : WriteInner net
at_rest = record {
  write_lock = unlocked;
  state = WritePipeState.writing 0 WriteState.buffering;
  buffer = three;
}

poll_write_keeps_pending_example :
    let (o, i, w) = poll_write net at_rest 9 (7 ∷ replicate 65533 7) contended in
    (o ≡ returns pending)
    × (payload i.buffer ≡ payload three ++ take (spare three) (7 ∷ replicate 65533 7))
unfolding PollMutex.poll_lock PacketBuffer.packet_size Integers.get
poll_write_keeps_pending_example =
    poll_write_keeps_pending net at_rest 0 9 7 (replicate 65533 7)
      (record { mutex = tt; fut = some tt }) contended contended refl three-IsPacket
      (omega arith, replicate-AreBytes 65533 7 (omega arith)) (omega arith)
      (omega (arith, length-replicate 65533 (let z : ℕ = 7 in z))) refl

flush-FlushEnded_example :
    let (o, i, w) = flush net in_flight 9 halfway in FlushEnded net [] three_bytes peer o i w
flush-FlushEnded_example =
    flush-FlushEnded net net-IsRuntime net-IsPrompt [] three_bytes peer in_flight 9 halfway
      in_flight-IsWriting

poll_shutdown-Shut_example :
    let (o, i, w) = poll_shutdown net in_flight 9 halfway in Shut net [] three_bytes peer o i w
poll_shutdown-Shut_example =
    poll_shutdown-Shut net net-IsRuntime [] three_bytes peer in_flight 9 halfway
      (inl in_flight-IsWriting)

drop_inner-DropOut_example :
    DropOut net [] three_bytes peer
      (WriteState.flushing tt 5)
      three
      (drop_inner net in_flight halfway).log
unfolding in_flight-IsWriting
drop_inner-DropOut_example =
    drop_inner-DropOut net net-IsRuntime (λ g bs w. refl) [] three_bytes peer in_flight halfway
      in_flight-IsWriting

handshake-Greeted_example :
    let (o, i, w) = handshake net (init net (replicate 65535 0) peer unlocked) halfway in
    Greeted net halfway.log peer o i w
handshake-Greeted_example =
    handshake-Greeted net net-IsRuntime (replicate 65535 0) peer unlocked
      (length-replicate 65535 (let z : ℕ = 0 in z)) (replicate-AreBytes 65535 0 (omega arith))
      (omega arith) halfway

eager_net-IsEager : IsEager eager_net
eager_net-IsEager = record {
  writes = λ g k x xs w. omega arith;
  flushes = λ g k w. tt;
  locks = λ f k w. tt;
}

abbrev eager_flight : WriteInner eager_net
eager_flight = record {
  write_lock = record { mutex = tt; fut = none };
  state = WritePipeState.writing 0 (WriteState.flushing tt 5);
  buffer = three;
}

eager_flight-IsWriting : IsWriting eager_net [] three_bytes peer eager_flight halfway
unfolding Integers.get PacketBuffer.packet_size in_flight-IsWriting
eager_flight-IsWriting = record {
  waker = 0;
  phase = WriteState.flushing tt 5;
  is_writing = refl;
  streams = in_flight-IsWriting.streams;
  busy = omega arith;
}

flush-Drained_example :
    let (o, i, w) = flush eager_net eager_flight 9 halfway in
    Drained eager_net eager_net-IsEager eager_net-IsRuntime [] three_bytes peer o i w
flush-Drained_example =
    flush-Drained eager_net eager_net-IsEager eager_net-IsRuntime [] three_bytes peer eager_flight 9
      halfway eager_flight-IsWriting
